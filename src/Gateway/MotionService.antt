-- ===== src/Gateway/MotionService.antt =====
-- gateway/motion_service.hpp: an intent made a run on the cell. The planner in force is an argument,
-- `plan`; so are the controllers in force, and what the cancel token says: `requested` in each cycle,
-- `asked` after the run. The jog of one axis is not here.
pub mod Execute
pub mod Safe
use robonode.Prelude.{
  ℕ, zero, suc, ◌+◌, Bool, true, false, not, ◌&&◌, if◌then◌else◌, ◌==◌, ltb, Option, none, some,
  List, [], ◌∷◌, map, length, get_elem?, replicate, Text, bytes, text_eq,
}
use robonode.Core.Double.{Double, nought, one, greatest}
use robonode.Core.Map.{Map, find}
use robonode.Core.Result.{Result, ok, err, ◌>>=◌, ◌>>◌, guard, Status, success, is_ok}
use robonode.Core.Geometry.{Vec3}
use robonode.Motion.Limits.{AxisLimits}
use robonode.Motion.Validator.{MotionSettings, PlanError, check}
use robonode.Motion.Executive.{TelemetryRow, CycleStats}
use robonode.Celld.Driver.{Drivers, Controllers}
use robonode.Celld.Cell.{Node, Cell, CellError}
use robonode.Celld.CellDescriptor.{MotionSpec}
use robonode.Celld.Robot.{RobotNode, RobotError, joint_positions, compose}
use robonode.Celld.Run.{Ran, run_waypoints}
use robonode.Gateway.Runtime.{Runtime, RuntimeError}
use robonode.Gateway.Runtime.Views.{with_cell, with_robot, limits, axis_ids, axis_units}

pub data ServiceError : Type 0 where
  runtime_error : RuntimeError → ServiceError
  not_composed : RobotError → ServiceError
  not_reached : Text → ServiceError
  trajectory_refused : PlanError → ServiceError
  run_error : CellError → ServiceError
  stopped_before_goal : ServiceError
  no_motion no_waypoints : Text → ServiceError

pub record WorstAxis {ℓ} (W : Type ℓ) : Type ℓ where
  pub id : Text
  pub unit : Text
  pub error : W

-- What a run reports: to the quality sink, and to the sink of runs the rows of one that succeeds.
pub record Report {ℓ} (W : Type ℓ) : Type ℓ where
  pub label : Text
  pub worst : WorstAxis W
  pub stats : CycleStats
  pub recorded : Option (List (List (TelemetryRow W)))

-- `cfg_`
pub record ServiceSettings {ℓ} (W : Type ℓ) : Type ℓ where
  pub rate_hz : W
  pub settle_s : W
  pub stop_time_s : W
  pub motion : MotionSettings W

abbrev pub no_stats : CycleStats
no_stats = record { cycles = 0; safety_hold_cycles = 0; cancel_cycles = 0; stopped_early = false }

-- An id or unit beyond the descriptor's does not occur: the rows are those of its nodes.
unfoldable pub or_none : Option Text → Text
or_none none = []
or_none (some t) = t

module _ {ℓ} {W : Type ℓ} ⦃d : Double W⦄ where
  -- The peak of the axis `i` over the cycles, of which the newest is first.
  unfoldable pub peak_of : ℕ → List (List (TelemetryRow W)) → W
  unfolding greatest
  peak_of i [] = nought
  peak_of i (row ∷ rows) =
      let before = peak_of i rows in
      elim (get_elem? row i) [ none ↦ before | some r ↦ greatest before (d.abs r.following_error) ]

  unfoldable pub in_model_units : Text → W → W
  unfolding text_eq
  in_model_units unit x = if text_eq unit (bytes "mm") then d.div x (d.decimal 1000 0) else x

  unfoldable pub worse : Text → Text → W → WorstAxis W → WorstAxis W
  unfolding in_model_units
  worse id unit peak worst =
      if d.le (in_model_units unit peak) (in_model_units worst.unit worst.error)
      then worst
      else record { id = id; unit = unit; error = peak }

  -- The loop of `worst_axis` over `left` axes, from the axis `i`.
  unfoldable pub worst_from :
      List Text → List Text → List (List (TelemetryRow W)) → ℕ → ℕ → WorstAxis W → WorstAxis W
  unfolding worse peak_of or_none
  worst_from ids units rows zero i worst = worst
  worst_from ids units rows (suc left) i worst =
      worst_from ids units rows left (i + 1)
        (worse (or_none (get_elem? ids i)) (or_none (get_elem? units i)) (peak_of i rows) worst)

  -- Over the rows of a run of `axes` axes.
  unfoldable pub worst_axis : List Text → List Text → List (List (TelemetryRow W)) → ℕ → WorstAxis W
  unfolding worst_from
  worst_axis ids units rows axes =
      worst_from ids units rows axes 0 (record { id = bytes "-"; unit = []; error = nought })

  -- The loop over the waypoint lists of a motion for the longest.
  unfoldable pub most_steps : Map (List W) → ℕ → ℕ
  most_steps [] steps = steps
  most_steps ((axis, wp) ∷ rest) steps =
      most_steps rest (if ltb steps (length wp) then length wp else steps)

  unfoldable pub find_motion : Text → List (MotionSpec W) → Option (MotionSpec W)
  unfolding text_eq
  find_motion id [] = none
  find_motion id (m ∷ ms) = if text_eq m.id id then some m else find_motion id ms

module _ {ℓ κ μ} {W : Type ℓ} {S : Type κ} {A : Type μ} ⦃d : Double W⦄ (io : Drivers W S A) where
  unfoldable pub held_or : ℕ → W → Option (List W) → List W
  held_or steps now none = replicate steps now
  held_or steps now (some wp) = if length wp == steps then wp else replicate steps now

  -- The loop of `compose_named` over the nodes.
  unfoldable pub compose_nodes : ℕ → Map (List W) → List (Node W A) → S → List (List W)
  unfolding held_or find
  compose_nodes steps waypoints [] s = []
  compose_nodes steps waypoints (n ∷ ns) s =
      held_or steps (Drivers.read io n.adapter s).position (find n.id waypoints)
      ∷ compose_nodes steps waypoints ns s

  unfoldable pub compose_named : Cell W S A → MotionSpec W → Result ServiceError (List (List W))
  unfolding compose_nodes most_steps
  compose_named c spec =
      let steps = most_steps spec.waypoints 0 in
      guard (not (steps == 0)) (no_waypoints spec.id)
      >> ok (compose_nodes steps spec.waypoints c.nodes c.world)
