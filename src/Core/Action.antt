-- ===== src/Core/Action.antt =====
-- What a member function that may fail does: it has the state of its object, and gives the state
-- that it leaves and a core/result.hpp.
use robonode.Core.Result.{Result, ok, err}

abbrev pub Action {ℓ κ} : Type ℓ → Type 0 → Type κ → Type (ℓ ⊔ κ)
Action S E A = S → S × Result E A

module _ {ℓ} {S : Type ℓ} {E : Type 0} where
  unfoldable pub and_then {κ μ} :
      {A : Type κ} {B : Type μ} → (A → Action S E B) → S × Result E A → S × Result E B
  and_then next (s, err why) = (s, err why)
  and_then next (s, ok a) = next a s

  infixl 5 ◌>>=◌ ◌>>◌
  abbrev pub ◌>>=◌ {κ μ} :
      {A : Type κ} {B : Type μ} (act : Action S E A) (next : A → Action S E B) → Action S E B
  (act >>= next) s = and_then next (act s)

  abbrev pub ◌>>◌ {μ} :
      {B : Type μ} (act : Action S E (Unit {0})) (next : Action S E B) → Action S E B
  act >> next = act >>= λ _. next

  abbrev pub return {κ} : {A : Type κ} → A → Action S E A
  return a s = (s, ok a)

  abbrev pub fail {κ} : {A : Type κ} → E → Action S E A
  fail why s = (s, err why)

  -- An action leaves `P` of the state, and its error, if it gives one, has `F`.
  abbrev pub Leaves {κ μ} : {A : Type κ} → (S → Type μ) → (E → Type 0) → S × Result E A → Type μ
  Leaves P F (s, ok a) = P s
  Leaves P F (s, err why) = P s × F why

  pub and_then-Leaves {κ μ ν} :
      {A : Type κ} {B : Type μ} (P Q : S → Type ν) (F : E → Type 0) (r : S × Result E A)
      (next : A → Action S E B)
      → Leaves P F r
      → ((s : S) → P s → Q s)
      → ((a : A) (s : S) → P s → Leaves Q F (next a s))
      → Leaves Q F (and_then next r)
  unfolding and_then
  and_then-Leaves P Q F (s, ok a) next h weaken step = step a s h
  and_then-Leaves P Q F (s, err why) next (h, e) weaken step = (weaken s h, e)
