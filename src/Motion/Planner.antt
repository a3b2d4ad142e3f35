-- ===== src/Motion/Planner.antt =====
-- motion/planner.hpp: the planners, which make waypoints of a goal. A planner is a function of the
-- configuration at the start and of the goal; where it refuses, what it has written is not read.
pub mod Avoiding
pub mod Posing
pub mod Registered
use robonode.Prelude.{
  ℕ, ◌==◌, Bool, true, false, if◌then◌else◌, List, [], ◌∷◌, ◌++◌, length, zip_with, Text, bytes,
}
use robonode.Core.Double.{Double}
use robonode.Core.Geometry.{Maths, Vec3, norm}
use robonode.Core.Result.{Result, ok, err, ◌>>=◌, ◌>>◌, guard}
use robonode.Motion.Kinematics.{Kinematics, Goal, joint, cartesian_position, cartesian_pose}
use robonode.Motion.Waypoints.{joined, last_column}
use robonode.Motion.Cartesian.Ik.{IkOptions, IkError}
use robonode.Motion.Cartesian.Reach.{ik_position}
use robonode.Motion.Cartesian.MoveL.{MoveError, plan_move_l}

-- Why no height of clearance will do, with the millimetres tried.
pub data Blocked : Type 0 where
  direct_line_blocked : Blocked
  no_leg : MoveError → Blocked
  link_sweeps : ℕ → Blocked

-- A goal of another kind, with the planner and the kind; and the other messages.
pub data Refusal : Type 0 where
  wrong_goal : Text → Text → Refusal
  joint_count : ℕ → ℕ → Refusal
  not_solved : IkError → Refusal
  not_moved : MoveError → Refusal
  cannot_check_collision : Refusal
  no_way_round : Blocked → ℕ → Refusal
  pose_unreachable : ℕ → IkError → Refusal

-- `Planner::plan`
abbrev pub Planner {ℓ} : Type ℓ → Type ℓ
Planner W = List W → Goal W → Result Refusal (List (List W))

-- In UTF-8.
abbrev em_dash : Text
em_dash = 226 ∷ 128 ∷ 148 ∷ []

unfoldable pub name_of {ℓ} : {W : Type ℓ} → Goal W → Text
name_of (joint q) = bytes "joint"
name_of (cartesian_position target velocity) = bytes "Cartesian position"
name_of (cartesian_pose pose) =
    bytes "Cartesian pose (6-DoF " ++ em_dash ++ bytes " select the robonode.moveP planner)"

unfoldable pub from_ik {ℓ} : {A : Type ℓ} → Result IkError A → Result Refusal A
from_ik (ok a) = ok a
from_ik (err why) = err (not_solved why)

unfoldable pub from_move {ℓ} : {A : Type ℓ} → Result MoveError A → Result Refusal A
from_move (ok a) = ok a
from_move (err why) = err (not_moved why)

-- `waypoints[k] = {start_q[k], goal[k]}` for each joint.
unfoldable pub two_points {ℓ} : {W : Type ℓ} → List W → List W → List (List W)
two_points = zip_with (λ a b. a ∷ b ∷ [])

unfoldable pub joint_plan {ℓ} : {W : Type ℓ} → Planner W
unfolding name_of two_points
joint_plan start_q (joint q) = do
  guard (length q == length start_q) (joint_count (length q) (length start_q))
  ok (two_points start_q q)
joint_plan start_q (cartesian_position target velocity) =
    err (wrong_goal (bytes "JointPlanner") (name_of (cartesian_position target velocity)))
joint_plan start_q (cartesian_pose pose) =
    err (wrong_goal (bytes "JointPlanner") (name_of (cartesian_pose pose)))

-- A planner that takes positions only: `go` is what it does with the target and its velocity.
unfoldable pub for_position {ℓ} :
    {W : Type ℓ} → Text → (List W → Vec3 W → Vec3 W → Result Refusal (List (List W))) → Planner W
unfolding name_of
for_position planner go start_q (cartesian_position target velocity) = go start_q target velocity
for_position planner go start_q (joint q) = err (wrong_goal planner (name_of (joint q)))
for_position planner go start_q (cartesian_pose pose) =
    err (wrong_goal planner (name_of (cartesian_pose pose)))

module _ {ℓ} {W : Type ℓ} ⦃d : Double W⦄ ⦃m : Maths W⦄ (kin : Kinematics W) where
  unfoldable pub cartesian_line_plan : ℕ → IkOptions W → Planner W
  unfolding for_position from_move plan_move_l
  cartesian_line_plan n_steps ik =
      for_position (bytes "CartesianLinePlanner")
        (λ start_q target velocity. from_move (plan_move_l kin start_q target n_steps ik))

  unfoldable pub joint_reach : IkOptions W → List W → Vec3 W → Result Refusal (List (List W))
  unfolding from_ik ik_position two_points
  joint_reach ik start_q target = do
    q_goal ← from_ik (ik_position kin start_q target ik)
    ok (two_points start_q q_goal)

  unfoldable pub joint_reach_plan : IkOptions W → Planner W
  unfolding for_position joint_reach
  joint_reach_plan ik =
      for_position (bytes "JointReachPlanner")
        (λ start_q target velocity. joint_reach ik start_q target)

  -- `is_moving`, of the velocity of a goal.
  unfoldable pub is_moving : Vec3 W → Bool
  unfolding norm
  is_moving velocity = d.lt (d.decimal 1 6) (norm velocity)

  -- Where a moving part is met, upstream.
  unfoldable pub entry_of : W → Vec3 W → Vec3 W → Vec3 W
  entry_of lead_in_s target velocity = record {
    x = d.sub target.x (d.mul velocity.x lead_in_s);
    y = d.sub target.y (d.mul velocity.y lead_in_s);
    z = d.sub target.z (d.mul velocity.z lead_in_s);
  }

  -- To the entry, and from where that ends alongside the part.
  unfoldable pub alongside :
      ℕ → IkOptions W → List W → Vec3 W → Vec3 W → Result MoveError (List (List W))
  unfolding plan_move_l last_column joined
  alongside n_steps ik start_q entry target = do
    to_entry ← plan_move_l kin start_q entry n_steps ik
    run_in ← plan_move_l kin (last_column to_entry) target n_steps ik
    ok (joined to_entry run_in)

  unfoldable pub rendezvous :
      ℕ → W → IkOptions W → List W → Vec3 W → Vec3 W → Result MoveError (List (List W))
  unfolding is_moving entry_of alongside plan_move_l
  rendezvous n_steps lead_in_s ik start_q target velocity =
      if is_moving velocity
      then alongside n_steps ik start_q (entry_of lead_in_s target velocity) target
      else plan_move_l kin start_q target n_steps ik

  unfoldable pub rendezvous_plan : ℕ → W → IkOptions W → Planner W
  unfolding for_position from_move rendezvous
  rendezvous_plan n_steps lead_in_s ik =
      for_position (bytes "RendezvousPlanner") (λ start_q target velocity.
        from_move (rendezvous n_steps lead_in_s ik start_q target velocity))
