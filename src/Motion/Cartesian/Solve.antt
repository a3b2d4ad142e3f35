-- ===== src/Motion/Cartesian/Solve.antt =====
-- The two linear solvers of motion/cartesian.hpp.
use robonode.Prelude.{
  ℕ, zero, suc, ◌+◌, if◌then◌else◌, Option, none, some, List, [], ◌∷◌, map, length,
}
use robonode.Core.Double.{Double, nought, one}
use robonode.Core.Geometry.{Vec3}

-- A row of the system: its entries from the column that is solved for next, and its right side. The
-- entries left of that column are not read again.
pub record Row {ℓ} (W : Type ℓ) : Type ℓ where
  pub entries : List W
  pub rhs : W

-- The row at an index after the first, with another put in its place.
unfoldable pub exchange {ℓ} : {A : Type ℓ} → A → List A → ℕ → A × List A
exchange r [] p = (r, [])
exchange r (s ∷ rs) zero = (s, r ∷ rs)
exchange r (s ∷ rs) (suc p) = let (found, rest) = exchange r rs p in (found, s ∷ rest)

-- `if (pivot != col)` the two rows are swapped: the pivot, and the rows after it.
unfoldable pub swap_rows {ℓ} : {A : Type ℓ} → A → List A → ℕ → A × List A
unfolding exchange
swap_rows r rs zero = (r, rs)
swap_rows r rs (suc p) = exchange r rs p

module _ {ℓ} {W : Type ℓ} ⦃d : Double W⦄ where
  -- The entry in the column that is solved for.
  unfoldable pub lead : List W → W
  lead [] = nought
  lead (a ∷ more) = a

  abbrev pub beyond : List W → List W
  beyond [] = []
  beyond (a ∷ more) = more

  -- The loop over `r` that finds the pivot: the best so far is `best`, with the entry `a`.
  unfoldable pub pivot_from : ℕ → W → ℕ → List (Row W) → ℕ
  unfolding lead
  pivot_from best a i [] = best
  pivot_from best a i (r ∷ rs) =
      let (best', a') =
        if d.lt (d.abs a) (d.abs (lead r.entries)) then (i, lead r.entries) else (best, a) in
      pivot_from best' a' (i + 1) rs

  -- `a - f * b`, entry by entry.
  unfoldable pub less : W → List W → List W → List W
  less f [] bs = []
  less f (a ∷ more) [] = a ∷ more
  less f (a ∷ more) (b ∷ bs) = d.sub a (d.mul f b) ∷ less f more bs

  -- The pivot's multiple taken from a row below it.
  unfoldable pub reduce : Row W → Row W → Row W
  unfolding lead less
  reduce pivot r =
      let f = d.div (lead r.entries) (lead pivot.entries) in
      if d.eq f nought then record { entries = beyond r.entries; rhs = r.rhs } else record {
        entries = less f (beyond r.entries) (beyond pivot.entries);
        rhs = d.sub r.rhs (d.mul f pivot.rhs);
      }

  -- The loop over `col`: the rows in triangular form, or nothing where a pivot vanishes.
  unfoldable pub eliminate : ℕ → List (Row W) → Option (List (Row W))
  unfolding swap_rows pivot_from lead reduce
  eliminate zero rows = some []
  eliminate (suc n) [] = some []
  eliminate (suc n) (r ∷ rs) =
      let (pivot, others) = swap_rows r rs (pivot_from 0 (lead r.entries) 1 rs) in
      let rest = eliminate n (map (reduce pivot) others) in
      if d.lt (d.abs (lead pivot.entries)) (d.decimal 1 12)
      then none
      else elim rest [ none ↦ none | some rows ↦ some (pivot ∷ rows) ]

  -- `sum -= a[i * m + c] * x[c]`
  unfoldable pub substitute : W → List W → List W → W
  substitute sum [] xs = sum
  substitute sum (a ∷ more) [] = sum
  substitute sum (a ∷ more) (x ∷ xs) = substitute (d.sub sum (d.mul a x)) more xs

  -- The loop over `i`, from the last row.
  unfoldable pub back_substitute : List (Row W) → List W
  unfolding substitute lead
  back_substitute [] = []
  back_substitute (r ∷ rows) =
      let xs = back_substitute rows in
      d.div (substitute r.rhs (beyond r.entries) xs) (lead r.entries) ∷ xs

  -- The rows with their right sides, `a` by its rows.
  unfoldable pub system : List (List W) → List W → List (Row W)
  system [] b = []
  system (r ∷ a) [] = []
  system (r ∷ a) (v ∷ b) = record { entries = r; rhs = v } ∷ system a b

  unfoldable pub solve_dense : List (List W) → List W → Option (List W)
  unfolding eliminate back_substitute system
  solve_dense a b = elim (eliminate (length b) (system a b)) [
    | none ↦ none
    | some rows ↦ some (back_substitute rows)
  ]

  -- `p * q - u * v`
  abbrev minor : W → W → W → W → W
  minor p q u v = d.sub (d.mul p q) (d.mul u v)

  -- `solve3x3`, by Cramer's rule. The matrix is given by its rows.
  unfoldable pub solve3x3 : Vec3 W → Vec3 W → Vec3 W → Vec3 W → Option (Vec3 W)
  solve3x3 r s t b =
      let det =
        d.add (d.sub (d.mul r.x (minor s.y t.z s.z t.y)) (d.mul r.y (minor s.x t.z s.z t.x)))
          (d.mul r.z (minor s.x t.y s.y t.x)) in
      let inv = d.div one det in
      if d.lt (d.abs det) (d.decimal 1 12)
      then none
      else some (record {
        x = d.mul inv (
            d.add (d.sub (d.mul b.x (minor s.y t.z s.z t.y)) (d.mul r.y (minor b.y t.z s.z b.z)))
              (d.mul r.z (minor b.y t.y s.y b.z)));
        y = d.mul inv (
            d.add (d.sub (d.mul r.x (minor b.y t.z s.z b.z)) (d.mul b.x (minor s.x t.z s.z t.x)))
              (d.mul r.z (minor s.x b.z b.y t.x)));
        z = d.mul inv (
            d.add (d.sub (d.mul r.x (minor s.y b.z b.y t.y)) (d.mul r.y (minor s.x b.z b.y t.x)))
              (d.mul b.x (minor s.x t.y s.y t.x)));
      })
