-- ===== src/Motion/Waypoints/Table.antt =====
-- Waypoints that are made configuration by configuration, as motion/cartesian.hpp and
-- motion/planner.hpp make them: what the configurations are is what the columns are.
use robonode.Prelude.{
  ℕ, zero, suc, ◌<◌, ◌≤◌, ◌≡◌, refl, sym, ◌∙◌, ap, ◌⊎◌, inl, inr, List, [], ◌∷◌, ◌++◌, map, length,
  length-map, length-append, arith, All,
}
use mathlib.Core.Path.{subst}
use robonode.Core.Double.{Double}
use robonode.Motion.Waypoints.{at, push_column, column}

cons_eq {ℓ} : {A : Type ℓ} {x y : A} {xs ys : List A} → x ≡ y → xs ≡ ys → (x ∷ xs) ≡ (y ∷ ys)
cons_eq e h = cc

abbrev pub AllLength {ℓ} : {W : Type ℓ} → ℕ → List (List W) → Type 0
AllLength n wps = All (λ w. length w ≡ n) wps

pub length-push_column {ℓ} :
    {W : Type ℓ} (wps : List (List W)) (q : List W) → length (push_column wps q) ≡ length wps
unfolding push_column
length-push_column [] q = refl
length-push_column (w ∷ wps) [] = refl
length-push_column (w ∷ wps) (x ∷ q) = ap suc (length-push_column wps q)

pub push_column-AllLength {ℓ} :
    {W : Type ℓ} (wps : List (List W)) (q : List W) (n : ℕ)
    → length wps ≡ length q
    → AllLength n wps
    → AllLength (suc n) (push_column wps q)
unfolding push_column
push_column-AllLength [] q n e h = tt
push_column-AllLength (w ∷ wps) [] n e h = absurd (omega (arith, e))
push_column-AllLength (w ∷ wps) (x ∷ q) n e (h, hs) = (
  omega (arith, length-append w (x ∷ []), h),
  push_column-AllLength wps q n (omega (arith, e)) hs,
)

module _ {ℓ} {W : Type ℓ} ⦃d : Double W⦄ where
  at-append-lt : (xs ys : List W) (i : ℕ) → i < length xs → at (xs ++ ys) i ≡ at xs i
  unfolding at
  at-append-lt [] ys i h = absurd (omega arith)
  at-append-lt (x ∷ xs) ys zero h = refl
  at-append-lt (x ∷ xs) ys (suc i) h = at-append-lt xs ys i (omega arith)

  at-append-length : (xs : List W) (y : W) (n : ℕ) → length xs ≡ n → at (xs ++ y ∷ []) n ≡ y
  unfolding at
  at-append-length [] y zero h = refl
  at-append-length [] y (suc n) h = absurd (omega (arith, h))
  at-append-length (x ∷ xs) y zero h = absurd (omega (arith, h))
  at-append-length (x ∷ xs) y (suc n) h = at-append-length xs y n (omega (arith, h))

  -- A column that was there stays, and the new one is the configuration.
  pub column-push_lt :
      (wps : List (List W)) (q : List W) (n j : ℕ)
      → length wps ≡ length q
      → AllLength n wps
      → j < n
      → column j (push_column wps q) ≡ column j wps
  unfolding push_column column at
  column-push_lt [] q n j e h k = refl
  column-push_lt (w ∷ wps) [] n j e h k = absurd (omega (arith, e))
  column-push_lt (w ∷ wps) (x ∷ q) n j e (h, hs) k =
      cons_eq (at-append-lt w (x ∷ []) j (omega arith))
        (column-push_lt wps q n j (omega (arith, e)) hs k)

  pub column-push_last :
      (wps : List (List W)) (q : List W) (n : ℕ)
      → length wps ≡ length q
      → AllLength n wps
      → column n (push_column wps q) ≡ q
  unfolding push_column column at
  column-push_last [] [] n e h = refl
  column-push_last [] (x ∷ q) n e h = absurd (omega (arith, e))
  column-push_last (w ∷ wps) [] n e h = absurd (omega (arith, e))
  column-push_last (w ∷ wps) (x ∷ q) n e (h, hs) =
      cons_eq (at-append-length w x n h) (column-push_last wps q n (omega (arith, e)) hs)

  pub first-AllLength : (q : List W) → AllLength 1 (map (λ x. x ∷ []) q)
  first-AllLength [] = tt
  first-AllLength (x ∷ q) = (refl, first-AllLength q)

  pub column-first : (q : List W) → column 0 (map (λ x. x ∷ []) q) ≡ q
  unfolding column at
  column-first [] = refl
  column-first (x ∷ q) = ap (λ rest. x ∷ rest) (column-first q)

module _ {ℓ} {W : Type ℓ} ⦃d : Double W⦄ where
  -- `dof` lists, each of `n + 1` values: the first configuration is `q_start`, and `Point` holds of
  -- every other, of its number.
  pub record IsTable (Point : ℕ → List W → Type 0) (dof : ℕ) (q_start : List W) (n : ℕ)
      (wps : List (List W)) : Type ℓ where
    pub joints : length wps ≡ dof
    pub steps : AllLength (suc n) wps
    pub first : column 0 wps ≡ q_start
    pub points : (j : ℕ) → 0 < j → j ≤ n → Point j (column j wps)

  pub push-IsTable :
      {Point : ℕ → List W → Type 0} {dof n : ℕ} {q_start q : List W} {wps : List (List W)}
      → IsTable Point dof q_start n wps
      → length q ≡ dof
      → Point (suc n) q
      → IsTable Point dof q_start (suc n) (push_column wps q)
  push-IsTable {Point = Point} {n = n} {q = q} {wps = wps} i size p = record {
    joints = length-push_column wps q ∙ i.joints;
    steps = push_column-AllLength wps q (suc n) same i.steps;
    first = column-push_lt wps q (suc n) 0 same i.steps (omega arith) ∙ i.first;
    points = λ j pos below. elim (old_or_new j below) [
      | inl old ↦
          subst (Point j) (sym (column-push_lt wps q (suc n) j same i.steps (omega arith)))
            (i.points j pos old)
      | inr new ↦
          rw new (subst (Point (suc n)) (sym (column-push_last wps q (suc n) same i.steps)) p)
    ];
  }
    where
      same : length wps ≡ length q
      same = i.joints ∙ sym size

      old_or_new : (j : ℕ) → j ≤ suc n → (j ≤ n) ⊎ (j ≡ suc n)
      old_or_new j h = ground arith

  pub first-IsTable :
      (Point : ℕ → List W → Type 0) (q_start : List W) {dof : ℕ}
      → length q_start ≡ dof
      → IsTable Point dof q_start 0 (map (λ x. x ∷ []) q_start)
  first-IsTable Point q_start size = record {
    joints = length-map q_start _ ∙ size;
    steps = first-AllLength q_start;
    first = column-first q_start;
    points = λ j pos below. absurd (omega arith);
  }
