-- ===== src/Motion/Waypoints.antt =====
-- Waypoints as motion/planner.hpp defines them: `waypoints[joint][step]`, one list for each joint.
pub mod Table
use robonode.Prelude.{ℕ, none, some, List, [], ◌∷◌, ◌++◌, map, get_elem?}
use robonode.Core.Double.{Double, nought}

-- A vector at an index, which is in range wherever the code reads.
unfoldable pub at {ℓ} : {W : Type ℓ} → ⦃d : Double W⦄ → List W → ℕ → W
at xs i = elim (get_elem? xs i) [ none ↦ nought | some x ↦ x ]

-- `waypoints[k].push_back(q[k])` for each joint.
unfoldable pub push_column {ℓ} : {W : Type ℓ} → List (List W) → List W → List (List W)
push_column [] q = []
push_column (w ∷ ws) [] = w ∷ ws
push_column (w ∷ ws) (x ∷ q) = (w ++ x ∷ []) ∷ push_column ws q

-- The configuration of a step: `waypoints[k][s]` for each joint.
unfoldable pub column {ℓ} : {W : Type ℓ} → ⦃d : Double W⦄ → ℕ → List (List W) → List W
unfolding at
column s wps = map (λ w. at w s) wps

-- The waypoints of each joint, one move after the other.
unfoldable pub joined {ℓ} : {W : Type ℓ} → List (List W) → List (List W) → List (List W)
joined [] ends = []
joined (w ∷ ws) [] = w ∷ ws
joined (w ∷ ws) (e ∷ ends) = (w ++ e) ∷ joined ws ends

module _ {ℓ} {W : Type ℓ} ⦃d : Double W⦄ where
  unfoldable pub last_of : List W → W
  last_of [] = nought
  last_of (q ∷ []) = q
  last_of (q ∷ q' ∷ w) = last_of (q' ∷ w)

  unfoldable pub last_column : List (List W) → List W
  unfolding last_of
  last_column wp = map last_of wp
