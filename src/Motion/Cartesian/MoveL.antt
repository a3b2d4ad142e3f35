-- ===== src/Motion/Cartesian/MoveL.antt =====
-- `plan_move_l` of motion/cartesian.hpp. Its waypoints are one list for each joint; where it fails,
-- what it has written is not read.
pub mod Chain
pub mod Line
use robonode.Prelude.{ℕ, zero, suc, ◌+◌, ◌==◌, ltb, List, [], ◌∷◌, ◌++◌, map, length}
use robonode.Core.Double.{Double}
use robonode.Core.Geometry.{Maths, Vec3, minus, plus, scaled}
use robonode.Core.Result.{Result, ok, err, ◌>>=◌, ◌>>◌, guard}
use robonode.Motion.Kinematics.{Kinematics}
use robonode.Motion.Waypoints.{push_column}
use robonode.Motion.Cartesian.Ik.{IkOptions, IkError}
use robonode.Motion.Cartesian.Reach.{ik_position}

pub data MoveError : Type 0 where
  start_size no_steps : MoveError
  unreachable_at : ℕ → IkError → MoveError

unfoldable pub at_step {ℓ} : {A : Type ℓ} → ℕ → Result IkError A → Result MoveError A
at_step s (ok a) = ok a
at_step s (err why) = err (unreachable_at s why)

module _ {ℓ} {W : Type ℓ} ⦃d : Double W⦄ ⦃m : Maths W⦄ where
  -- The point of the line after `s` of `n_steps` steps.
  unfoldable pub on_line : Vec3 W → Vec3 W → ℕ → ℕ → Vec3 W
  unfolding plus scaled minus
  on_line p0 target n_steps s =
      plus p0 (scaled (minus target p0) (d.div (d.of_nat s) (d.of_nat n_steps)))

  -- The loop, from the step `s`.
  unfoldable pub walk :
      Kinematics W
      → IkOptions W
      → (ℕ → Vec3 W)
      → ℕ
      → ℕ
      → List W
      → List (List W)
      → Result MoveError (List (List W))
  unfolding at_step ik_position push_column
  walk kin opt line zero s q wps = ok wps
  walk kin opt line (suc left) s q wps = do
    q_next ← at_step s (ik_position kin q (line s) opt)
    walk kin opt line left (s + 1) q_next (push_column wps q_next)

  -- An `n_steps` below 0 is as 0.
  unfoldable pub plan_move_l :
      Kinematics W → List W → Vec3 W → ℕ → IkOptions W → Result MoveError (List (List W))
  unfolding walk on_line
  plan_move_l kin q_start target n_steps opt = do
    guard (length q_start == kin.dof) start_size
    guard (ltb 0 n_steps) no_steps
    walk kin opt (on_line (kin.tcp_position q_start) target n_steps) n_steps 1 q_start
        (map (λ x. x ∷ []) q_start)
