-- ===== src/Core/Result.antt =====
-- core/status.hpp and core/result.hpp. A `Status` is the result of a call that returns nothing; an
-- out parameter that is written on success only is the value of the result. An error is the
-- message, as a type `E` of the messages that a component gives.
use robonode.Prelude.{◌≡◌, refl, arith, Bool, true, false, if◌then◌else◌}

pub data Result {ℓ} (E : Type 0) (A : Type ℓ) : Type ℓ where
  ok : A → Result E A
  err : E → Result E A

-- `Status`
abbrev pub Status : Type 0 → Type 0
Status E = Result E (Unit {0})

-- `Status::success()`
abbrev pub success : {E : Type 0} → Status E
success = ok tt

-- `Status::ok()`
abbrev pub is_ok {ℓ} : {E : Type 0} {A : Type ℓ} → Result E A → Bool
is_ok (ok a) = true
is_ok (err e) = false

-- `if (!b) return Status::failure(e);`
abbrev pub guard : {E : Type 0} → Bool → E → Status E
guard b e = if b then success else err e

-- `if (const auto st = r; !st.ok()) return st;`, and what follows it.
infixl 5 ◌>>=◌
abbrev pub ◌>>=◌ {ℓ κ} :
    {E : Type 0} {A : Type ℓ} {B : Type κ} (r : Result E A) (next : A → Result E B) → Result E B
err why >>= next = err why
ok x >>= next = next x

infixl 5 ◌>>◌
abbrev pub ◌>>◌ {ℓ} : {E : Type 0} {B : Type ℓ} (st : Status E) (next : Result E B) → Result E B
st >> next = st >>= λ _. next

pub >>=-eq-ok {ℓ κ} :
    {E : Type 0} {A : Type ℓ} {B : Type κ} (r : Result E A) (next : A → Result E B) {y : B}
    → (r >>= next) ≡ ok y
    → (x : A) × (r ≡ ok x) × (next x ≡ ok y)
>>=-eq-ok (err why) next done = ground arith
>>=-eq-ok (ok x) next done = (x, refl, done)

pub bind_assoc {ℓ κ μ} :
    {E : Type 0} {A : Type ℓ} {B : Type κ} {C : Type μ} (r : Result E A) (f : A → Result E B)
    (g : B → Result E C)
    → (r >>= f >>= g) ≡ (r >>= λ a. f a >>= g)
bind_assoc (ok a) f g = refl
bind_assoc (err e) f g = refl

-- `P` holds of the value, `F` of the error.
pub data Post {ℓ κ} {E : Type 0} {A : Type ℓ} (P : A → Type κ) (F : E → Type 0)
    : Result E A → Type (ℓ ⊔ κ) where
  returns : {a : A} → P a → Post P F (ok a)
  raises : {e : E} → F e → Post P F (err e)

pub Post-bind {ℓ κ μ ν} :
    {E : Type 0} {A : Type ℓ} {B : Type κ} {P : A → Type μ} {Q : B → Type ν} {F : E → Type 0}
    {r : Result E A} {f : A → Result E B}
    → Post P F r
    → ((a : A) → P a → Post Q F (f a))
    → Post Q F (r >>= f)
Post-bind (returns h) k = k _ h
Post-bind (raises h) k = raises h

pub Post-ok {ℓ κ} :
    {E : Type 0} {A : Type ℓ} {P : A → Type κ} {F : E → Type 0} {a : A} → Post P F (ok a) → P a
Post-ok (returns h) = h

pub Post-err {ℓ κ} :
    {E : Type 0} {A : Type ℓ} {P : A → Type κ} {F : E → Type 0} {e : E} → Post P F (err e) → F e
Post-err (raises h) = h

pub Post-if {ℓ κ} :
    {E : Type 0} {A : Type ℓ} {P : A → Type κ} {F : E → Type 0} (b : Bool) {r s : Result E A}
    → Post P F r
    → Post P F s
    → Post P F (if b then r else s)
Post-if true h k = h
Post-if false h k = k

pub Post-weaken {ℓ κ μ} :
    {E : Type 0} {A : Type ℓ} {P : A → Type κ} {Q : A → Type μ} {F : E → Type 0} {r : Result E A}
    → Post P F r
    → ((a : A) → P a → Q a)
    → Post Q F r
Post-weaken (returns h) k = returns (k _ h)
Post-weaken (raises h) k = raises h

pub Post-guard {ℓ κ} :
    {E : Type 0} {A : Type ℓ} {P : A → Type κ} {F : E → Type 0} (b : Bool) (e : E) {r : Result E A}
    → F e
    → (b ≡ true → Post P F r)
    → Post P F (guard b e >> r)
Post-guard true e h k = k refl
Post-guard false e h k = raises h
