-- ===== src/Motion/Planner/Avoiding.antt =====
-- `AvoidingPlanner` of motion/planner.hpp: the straight line where it is clear, and over the top where
-- it is not. A number of steps below 1 is as 1.
pub mod Clear
use robonode.Prelude.{
  ℕ, zero, suc, ◌+◌, ltb, not, Bool, true, false, if◌then◌else◌, List, [], ◌∷◌, length, bytes,
}
use robonode.Core.Double.{Double, greatest}
use robonode.Core.Geometry.{Maths, Vec3}
use robonode.Core.Result.{Result, ok, err, ◌>>=◌, ◌>>◌, guard}
use robonode.Motion.Kinematics.{Kinematics}
use robonode.Motion.Waypoints.{column, joined, last_of}
use robonode.Motion.Cartesian.Ik.{IkOptions}
use robonode.Motion.Cartesian.MoveL.{MoveError, plan_move_l}
use robonode.Motion.Planner.{
  Refusal, Blocked, direct_line_blocked, no_leg, link_sweeps, no_way_round, cannot_check_collision,
  Planner, for_position,
}

-- `std::max(1, n_steps)`
unfoldable pub steps_of : ℕ → ℕ
steps_of zero = 1
steps_of (suc n) = suc n

abbrev pub attempts : ℕ
attempts = 3

-- `append`, where the path has no joint as yet, and where it has some.
unfoldable pub append {ℓ} : {W : Type ℓ} → List (List W) → List (List W) → List (List W)
unfolding joined
append [] segment = segment
append (w ∷ path) segment = joined (w ∷ path) segment

module _ {ℓ} {W : Type ℓ} ⦃d : Double W⦄ where
  -- `q[k] = segment[k].back()` for each joint.
  unfoldable pub carried : List W → List (List W) → List W
  unfolding last_of
  carried [] segment = []
  carried (x ∷ q) [] = x ∷ q
  carried (x ∷ q) (w ∷ segment) = last_of w ∷ carried q segment

  unfoldable pub millimetres : W → ℕ
  millimetres m = d.trunc (d.mul m (d.of_nat 1000))

  -- `waypoints.front().size()`
  unfoldable pub steps_in : List (List W) → ℕ
  steps_in [] = 0
  steps_in (w ∷ wps) = length w

  module _ (kin : Kinematics W) where
    -- The loop of `clear`, from the step `s`.
    unfoldable pub clear_from : List (List W) → ℕ → ℕ → Bool
    unfolding column
    clear_from wps zero s = true
    clear_from wps (suc left) s = elim (kin.in_collision (column s wps)) [
      | true ↦ false
      | false ↦ clear_from wps left (s + 1)
    ]

    -- Of no joints, there is no step to look at.
    unfoldable pub clear : List (List W) → Bool
    unfolding clear_from steps_in
    clear wps = clear_from wps (steps_in wps) 0

    module _ ⦃m : Maths W⦄ (n_steps : ℕ) (ik : IkOptions W) where
      -- The loop over the legs.
      unfoldable pub legs_from :
          List W → List (List W) → List (Vec3 W) → Result MoveError (List (List W))
      unfolding plan_move_l append carried
      legs_from q path [] = ok path
      legs_from q path (leg ∷ legs) = do
        segment ← plan_move_l kin q leg n_steps ik
        legs_from (carried q segment) (append path segment) legs

      unfoldable pub plan_over : List W → Vec3 W → Vec3 W → W → Result MoveError (List (List W))
      unfolding legs_from greatest
      plan_over start_q goal from lift =
          let top = d.add (greatest from.z goal.z) lift in
          legs_from start_q [] (
            record { x = from.x; y = from.y; z = top }
            ∷ record { x = goal.x; y = goal.y; z = top }
            ∷ goal
            ∷ [])

      -- What an attempt comes to: its path, or why it will not do.
      unfoldable pub attempted :
          W → Result MoveError (List (List W)) → Result Blocked (List (List W))
      unfolding clear millimetres
      attempted lift (err why) = err (no_leg why)
      attempted lift (ok path) =
          if clear path then ok path else err (link_sweeps (millimetres lift))

      -- The loop over the attempts, of which `left` are left and the last was refused with `why`.
      unfoldable pub try_over :
          W → List W → Vec3 W → Vec3 W → ℕ → ℕ → Blocked → Result Refusal (List (List W))
      unfolding plan_over attempted millimetres
      try_over clearance_m start_q goal from zero attempt why =
          err (no_way_round why (millimetres (d.mul clearance_m (d.of_nat attempts))))
      try_over clearance_m start_q goal from (suc left) attempt why =
          let lift = d.mul clearance_m (d.of_nat attempt) in
          elim (attempted lift (plan_over start_q goal from lift)) [
            | ok path ↦ ok path
            | err why' ↦ try_over clearance_m start_q goal from left (attempt + 1) why'
          ]

      -- The direct line, if there is one and it is clear, or else over the top.
      unfoldable pub direct_or :
          Result MoveError (List (List W))
          → Result Refusal (List (List W))
          → Result Refusal (List (List W))
      unfolding clear
      direct_or (err why) around = around
      direct_or (ok wps) around = if clear wps then ok wps else around

      unfoldable pub avoid : W → List W → Vec3 W → Result Refusal (List (List W))
      unfolding direct_or plan_move_l try_over
      avoid clearance_m start_q goal = do
        guard kin.can_check_collision cannot_check_collision
        direct_or (plan_move_l kin start_q goal n_steps ik) (
            try_over clearance_m start_q goal (kin.tcp_position start_q) attempts 1
              direct_line_blocked)

    unfoldable pub avoiding_plan : ⦃m : Maths W⦄ → ℕ → W → IkOptions W → Planner W
    unfolding for_position avoid steps_of
    avoiding_plan n_steps clearance_m ik =
        for_position (bytes "AvoidingPlanner")
          (λ start_q target velocity. avoid (steps_of n_steps) ik clearance_m start_q target)
