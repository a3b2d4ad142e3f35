-- ===== src/Gateway/Control.antt =====
-- gateway/control_capability.hpp, and the trajectory capability of gateway/trajectory_capability.hpp
-- beside its versions: what they are built from. Publishing them in JSON is left out.
use robonode.Prelude.{if◌then◌else◌, Option, none, some, List, [], ◌∷◌, Text}
use robonode.Core.Map.{Map, find}
use robonode.Core.Geometry.{Vec3}
use robonode.Core.Result.{Result, ok, err, ◌>>=◌, Status, success}
use robonode.Motion.Limits.{AxisLimits}
use robonode.Motion.Kinematics.{Kinematics, JointBound, Goal}
use robonode.Motion.ModuleRegistry.{Factory, RegistryError, has, make}
use robonode.Motion.Planner.{Planner, Refusal}
use robonode.Motion.Planner.Registered.{IkSettings, PlannerContext}
use robonode.Gateway.Capability.{CapabilityError, unknown, made_into}

-- `registry_`, `version_`, `limits_` and `controllers_`. A `ControlContext` is the limits of an axis.
pub record Control {ℓ ν} (W : Type ℓ) (K : Type ν) : Type (ℓ ⊔ ν) where
  pub registry : Map (Factory K (AxisLimits W))
  pub version : Text
  pub limits : List (AxisLimits W)
  pub controllers : List K

-- `registry_`, `version_`, `planner_`, which may be null, `kin_`, `bounds_`, `weights_` and what is
-- read of `cfg_`. A cell whose kinematics could not be opened at first is not modelled.
pub record Trajectory {ℓ} (W : Type ℓ) : Type ℓ where
  pub registry : Map (Factory (Planner W) (PlannerContext W))
  pub version : Text
  pub planner : Option (Planner W)
  pub kin : Kinematics W
  pub bounds : List (JointBound W)
  pub weights : List W
  pub ik : IkSettings W
  pub workspace_lo : Vec3 W
  pub workspace_hi : Vec3 W

pub data TrajectoryError : Type 0 where
  failed_to_build : Text → TrajectoryError
  refused : Refusal → TrajectoryError

-- Where the version is not available, there is no controller at all.
unfoldable pub or_cleared {ν} : {K : Type ν} → Result RegistryError (List K) → List K
or_cleared (ok ks) = ks
or_cleared (err why) = []

module _ {ℓ ν} {W : Type ℓ} {K : Type ν} where
  -- The loop of `build`: a controller for each axis.
  unfoldable pub made_all :
      Map (Factory K (AxisLimits W)) → Text → List (AxisLimits W) → Result RegistryError (List K)
  unfolding make
  made_all registry version [] = ok []
  made_all registry version (lim ∷ lims) = do
    k ← make version lim registry
    ks ← made_all registry version lims
    ok (k ∷ ks)

  unfoldable pub build_control : Control W K → Control W K
  unfolding made_all or_cleared
  build_control c = record c { controllers = or_cleared (made_all c.registry c.version c.limits) }

  unfoldable pub rebuild_control : List (AxisLimits W) → Control W K → Control W K
  unfolding build_control
  rebuild_control per_node c = build_control (record c { limits = per_node })

  unfoldable pub select_control : Text → Control W K → Control W K × Status CapabilityError
  unfolding build_control has
  select_control version c =
      if has version c.registry
      then (build_control (record c { version = version }), success)
      else (c, err (unknown version))

module _ {ℓ} {W : Type ℓ} where
  -- `ctx` in `rebuild`; its `config` is empty.
  unfoldable pub context_of : Trajectory W → PlannerContext W
  context_of t = record {
    kin = t.kin;
    ik = t.ik;
    bounds = t.bounds;
    weights = t.weights;
    workspace_lo = t.workspace_lo;
    workspace_hi = t.workspace_hi;
    config = [];
  }

  unfoldable pub rebuild_trajectory : Trajectory W → Trajectory W
  unfolding context_of made_into find
  rebuild_trajectory t = record t {
    planner = made_into (context_of t) t.planner (find t.version t.registry);
  }

  unfoldable pub from_planner :
      Result Refusal (List (List W)) → Result TrajectoryError (List (List W))
  from_planner (ok wps) = ok wps
  from_planner (err why) = err (refused why)

  unfoldable pub plan_with : Trajectory W → List W → Goal W → Result TrajectoryError (List (List W))
  unfolding from_planner
  plan_with t start_q goal = elim t.planner [
    | none ↦ err (failed_to_build t.version)
    | some plan ↦ from_planner (plan start_q goal)
  ]
