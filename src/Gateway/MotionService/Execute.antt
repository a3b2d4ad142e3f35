-- ===== src/Gateway/MotionService/Execute.antt =====
-- gateway/motion_service.hpp: the run of a trajectory, and the requests that end in one.
use robonode.Prelude.{
  ℕ, Bool, not, ◌&&◌, if◌then◌else◌, Option, none, some, List, [], length, Text, bytes,
}
use robonode.Core.Double.{Double}
use robonode.Core.Result.{Result, ok, err, Status, success}
use robonode.Core.Geometry.{Vec3, Pose}
use robonode.Motion.Limits.{AxisLimits}
use robonode.Motion.Validator.{PlanError, check}
use robonode.Celld.Driver.{Drivers, Controllers}
use robonode.Celld.Cell.{Cell, CellError}
use robonode.Celld.CellDescriptor.{MotionSpec}
use robonode.Celld.Robot.{RobotNode, RobotError, joint_positions, compose}
use robonode.Celld.Run.{Ran, run_waypoints}
use robonode.Gateway.Runtime.{Runtime}
use robonode.Gateway.Runtime.Views.{with_cell, with_robot, limits, axis_ids, axis_units}
use robonode.Motion.Kinematics.{Goal, cartesian_position, cartesian_pose}
use robonode.Gateway.MotionService.{
  ServiceError, runtime_error, not_composed, not_reached, trajectory_refused, run_error,
  stopped_before_goal, no_motion, Report, ServiceSettings, no_stats, worst_axis, find_motion,
  compose_named,
}

-- What the service knows of the axes: the limits, ids and units of the descriptor.
pub record Axes {ℓ} (W : Type ℓ) : Type ℓ where
  pub limits : List (AxisLimits W)
  pub ids : List Text
  pub units : List Text

-- What a request leaves: the cell, and what it reported.
pub record Executed {ℓ κ μ} (W : Type ℓ) (S : Type κ) (A : Type μ) : Type (ℓ ⊔ κ ⊔ μ) where
  pub cell : Cell W S A
  pub report : Option (Report W)

module _ {ℓ κ μ} {W : Type ℓ} {S : Type κ} {A : Type μ} where
  unfoldable pub axes_of : Runtime W S A → Axes W
  unfolding limits axis_ids axis_units
  axes_of rt = record { limits = limits rt; ids = axis_ids rt; units = axis_units rt }

module _ {ℓ κ μ} {W : Type ℓ} {S : Type κ} {A : Type μ} ⦃d : Double W⦄ (io : Drivers W S A)
    (cfg : ServiceSettings W) (ctl : Controllers W S) (requested : ℕ → Bool) (asked : Bool) where
  -- `report`, of a run that failed before its first cycle.
  unfoldable pub report_failed : Axes W → Report W
  unfolding worst_axis
  report_failed axes = record {
    label = bytes "move";
    worst = worst_axis axes.ids axes.units [] 0;
    stats = no_stats;
    recorded = none;
  }

  -- `report`, of a run.
  unfoldable pub report_of : Axes W → Ran W S A → Report W
  unfolding worst_axis
  report_of axes ran = record {
    label = bytes "move";
    worst = worst_axis axes.ids axes.units ran.rows (length ran.cell.nodes);
    stats = ran.stats;
    recorded = some ran.rows;
  }

  -- `execute`, from the end of the run.
  unfoldable pub ended :
      Axes W → Cell W S A → Result CellError (Ran W S A) → Executed W S A × Status ServiceError
  unfolding report_of report_failed
  ended axes c (err why) =
      (record { cell = c; report = some (report_failed axes) }, err (run_error why))
  ended axes c (ok ran) = (
    record { cell = ran.cell; report = some (report_of axes ran) },
    (if ran.stats.stopped_early && not asked then err stopped_before_goal else success),
  )

  unfoldable pub checked :
      Axes W
      → List (List W)
      → W
      → Cell W S A
      → Status PlanError
      → Executed W S A × Status ServiceError
  unfolding ended run_waypoints
  checked axes wp settle c (err why) =
      (record { cell = c; report = none }, err (trajectory_refused why))
  checked axes wp settle c (ok _) =
      ended axes c (run_waypoints io ctl wp cfg.rate_hz settle cfg.stop_time_s requested c)

  unfoldable pub execute :
      Axes W → List (List W) → W → Cell W S A → Executed W S A × Status ServiceError
  unfolding checked check
  execute axes wp settle c = checked axes wp settle c (check cfg.motion wp axes.limits axes.ids)

  -- A request that makes waypoint lists for the cell, or refuses to.
  unfoldable pub execute_made :
      Axes W
      → W
      → Cell W S A
      → Result ServiceError (List (List W))
      → Executed W S A × Status ServiceError
  unfolding execute
  execute_made axes settle c (err why) = (record { cell = c; report = none }, err why)
  execute_made axes settle c (ok wp) = execute axes wp settle c

  unfoldable pub cell_of : Executed W S A × Status ServiceError → Cell W S A × Status ServiceError
  cell_of (e, st) = (e.cell, st)

  unfoldable pub as_service :
      Result RobotError (List (List W)) → Result ServiceError (List (List W))
  as_service (ok wp) = ok wp
  as_service (err why) = err (not_composed why)

  module _ (plan : List W → Goal W → Result Text (List (List W))) where
    unfoldable pub planned :
        Cell W S A → RobotNode W → Result Text (List (List W)) → Result ServiceError (List (List W))
    unfolding as_service compose
    planned c r (err why) = err (not_reached why)
    planned c r (ok joint_wp) = as_service (compose io r c joint_wp)

    -- The common body of `move_to` and `move_pose`.
    unfoldable pub reach :
        Axes W → Goal W → Cell W S A → RobotNode W → Executed W S A × Status ServiceError
    unfolding execute_made planned joint_positions
    reach axes goal c r =
        execute_made axes cfg.settle_s c (planned c r (plan (joint_positions io r c) goal))

    -- `move_to`; `move_l` is the same with no velocity.
    unfoldable pub move_to :
        Vec3 W → Vec3 W → Text → Runtime W S A → Runtime W S A × Status ServiceError
    unfolding reach cell_of with_robot axes_of
    move_to target velocity robot rt =
        with_robot runtime_error robot
          (λ c r. cell_of (reach (axes_of rt) (cartesian_position target velocity) c r)) rt

    unfoldable pub move_pose : Pose W → Text → Runtime W S A → Runtime W S A × Status ServiceError
    unfolding reach cell_of with_robot axes_of
    move_pose target robot rt =
        with_robot runtime_error robot
          (λ c r. cell_of (reach (axes_of rt) (cartesian_pose target) c r)) rt

  unfoldable pub run_found :
      Text → Option (MotionSpec W) → Runtime W S A → Runtime W S A × Status ServiceError
  unfolding execute_made cell_of with_cell compose_named axes_of
  run_found id none rt = (rt, err (no_motion id))
  run_found id (some spec) rt =
      with_cell runtime_error
        (λ c. cell_of (execute_made (axes_of rt) spec.settle_s c (compose_named io c spec))) rt

  unfoldable pub run_motion : Text → Runtime W S A → Runtime W S A × Status ServiceError
  unfolding run_found find_motion
  run_motion id rt = run_found id (find_motion id rt.desc.motions) rt
