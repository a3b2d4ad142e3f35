-- ===== src/Gateway/Planner.antt =====
-- gateway/sandboxed_planner.hpp: a planner that a user wrote in the language of the sandbox. Its
-- program gives a point to pass and a point to reach; `move_l` is the straight move of the
-- kinematics in force, from joint positions to a point.
pub mod Workspace
use robonode.Prelude.{ℕ, Bool, true, false, ◌&&◌, if◌then◌else◌, Option, none, some, List, [], ◌∷◌}
use robonode.Core.Double.{Double}
use robonode.Core.Result.{Result, ok, err, ◌>>=◌, ◌>>◌, guard}
use robonode.Core.Geometry.{Vec3}
use robonode.Sandbox.Program.{Program, SandboxLimits, VmError}
use robonode.Sandbox.Eval.{run}
use robonode.Motion.Waypoints.{joined, last_column}
use robonode.Motion.Kinematics.{Goal, joint, cartesian_position, cartesian_pose}

pub record SandboxedPlanner {ℓ} (W : Type ℓ) : Type ℓ where
  pub program : Program W
  pub limits : SandboxLimits
  pub lo : Vec3 W
  pub hi : Vec3 W

pub data PlannerError (E : Type 0) : Type 0 where
  non_cartesian_goal not_six_values non_finite_output outside_workspace : PlannerError E
  program_failed : VmError → PlannerError E
  not_reached : E → PlannerError E

-- The straight move, with its messages `E`.
abbrev pub MoveL {ℓ} : Type 0 → Type ℓ → Type ℓ
MoveL E W = List W → Vec3 W → Result E (List (List W))

unfoldable pub from_program {ℓ} :
    {E : Type 0} {A : Type ℓ} → Result VmError A → Result (PlannerError E) A
from_program (ok a) = ok a
from_program (err why) = err (program_failed why)

unfoldable pub from_move {ℓ} : {E : Type 0} {A : Type ℓ} → Result E A → Result (PlannerError E) A
from_move (ok a) = ok a
from_move (err why) = err (not_reached why)

-- The point to pass and the point to reach, of exactly six values.
unfoldable pub two_points {ℓ} :
    {E : Type 0} {W : Type ℓ} → List W → Result (PlannerError E) (Vec3 W × Vec3 W)
two_points (a ∷ b ∷ c ∷ d ∷ e ∷ f ∷ []) =
    ok (record { x = a; y = b; z = c }, record { x = d; y = e; z = f })
two_points _ = err not_six_values

module _ {ℓ} {W : Type ℓ} ⦃d : Double W⦄ where
  unfoldable pub all_finite : List W → Bool
  all_finite [] = true
  all_finite (v ∷ vs) = d.is_finite v && all_finite vs

  unfoldable pub in_bounds : SandboxedPlanner W → Vec3 W → Bool
  in_bounds p q =
      d.le p.lo.x q.x
      && d.le q.x p.hi.x
      && d.le p.lo.y q.y
      && d.le q.y p.hi.y
      && d.le p.lo.z q.z
      && d.le q.z p.hi.z

  module _ {E : Type 0} (move_l : MoveL E W) where
    -- `plan`, from the two points.
    unfoldable pub plan_points :
        SandboxedPlanner W → List W → Vec3 W → Vec3 W → Result (PlannerError E) (List (List W))
    unfolding in_bounds from_move last_column joined
    plan_points p start_q via end = do
      guard (in_bounds p via && in_bounds p end) outside_workspace
      to_via ← from_move (move_l start_q via)
      to_end ← from_move (move_l (last_column to_via) end)
      ok (joined to_via to_end)

    -- `plan`, from the outputs of the program.
    unfoldable pub plan_outputs :
        SandboxedPlanner W → List W → List W → Result (PlannerError E) (List (List W))
    unfolding two_points all_finite plan_points
    plan_outputs p start_q out = do
      points ← two_points out
      guard (all_finite out) non_finite_output
      plan_points p start_q points.0 points.1

    unfoldable pub plan :
        SandboxedPlanner W → List W → Goal W → Result (PlannerError E) (List (List W))
    unfolding from_program plan_outputs run
    plan p start_q (cartesian_position target velocity) =
        from_program (run p.program (target.x ∷ target.y ∷ target.z ∷ []) p.limits)
        >>= plan_outputs p start_q
    plan p start_q (joint q) = err non_cartesian_goal
    plan p start_q (cartesian_pose pose) = err non_cartesian_goal
