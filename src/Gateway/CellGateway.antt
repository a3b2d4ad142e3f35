-- ===== src/Gateway/CellGateway.antt =====
-- gateway/cell_gateway.hpp: what ties the parts of a live cell together. Here are the calls that
-- build a cell, exchange a node or the scene, with what they keep in step; telemetry, the log, the
-- camera and the detectors are left out. `open_kinematics`, over a physics engine, is an argument;
-- so is what a scene composes to.
pub mod InStep
pub mod Stale
use robonode.Prelude.{
  ◌&&◌, not, if◌then◌else◌, Option, none, some, List, [], ◌∷◌, ◌++◌, Text, bytes, text_eq, is_empty,
}
use robonode.Core.Double.{Double}
use robonode.Core.Map.{find}
use robonode.Core.Result.{Result, ok, err, Status, success}
use robonode.Program.Station.{StationSpec}
use robonode.Motion.Kinematics.{Kinematics, JointBound}
use robonode.Celld.Driver.{Drivers}
use robonode.Celld.Cell.{Node}
use robonode.Celld.CellDescriptor.{CellNodeSpec, RobotSpec, FamilySpec}
use robonode.Gateway.Supervisor.{CellSupervisor, building, idle, command_failed, begin, end, fault}
use robonode.Gateway.Runtime.{Runtime, RuntimeError, JointMap, build}
use robonode.Gateway.Runtime.Views.{limits, joint_map, joint_bounds, swap_driver}
use robonode.Gateway.Control.{Control, Trajectory, rebuild_control, rebuild_trajectory}

-- `runtime_`, `supervisor_`, `control_`, `trajectory_`, `arm_` and `family_`; the world that the live
-- scene was opened on, if it is open, and `clutter_` of the vision.
pub record CellGateway {ℓ κ μ ν} (W : Type ℓ) (S : Type κ) (A : Type μ) (K : Type ν)
    : Type (ℓ ⊔ κ ⊔ μ ⊔ ν) where
  pub runtime : Runtime W S A
  pub supervisor : CellSupervisor
  pub control : Control W K
  pub trajectory : Trajectory W
  pub arm : JointMap W
  pub family : Text
  pub scene : Option Text
  pub clutter : Text

pub data GatewayError : Type 0 where
  not_built : RuntimeError → GatewayError
  bad_scene : Text → GatewayError

pub data Request : Type 0 where
  builds : Text → Request
  swaps_node : Text → Text → Request
  swaps_scene : Result Text Text → Text → Request

module _ {ℓ} {W : Type ℓ} where
  -- The inner loop of `joint_names`.
  unfoldable pub names_at : Text → List (CellNodeSpec W) → List Text
  unfolding text_eq
  names_at id [] = []
  names_at id (n ∷ ns) =
      let rest = names_at id ns in
      if text_eq n.id id then (if is_empty n.joint then n.id else n.joint) ∷ rest else rest

  unfoldable pub names_of : List Text → List (CellNodeSpec W) → List Text
  unfolding names_at
  names_of [] ns = []
  names_of (id ∷ chain) ns = names_at id ns ++ names_of chain ns

  -- `joint_names`: those of the first robot's chain, the carrier first.
  unfoldable pub joint_names : List RobotSpec → List (CellNodeSpec W) → List Text
  unfolding names_of
  joint_names [] ns = []
  joint_names (r ∷ rs) ns = names_of (r.carrier ++ r.joints) ns

unfoldable pub tcp_site : List RobotSpec → Text
tcp_site [] = bytes "tcp"
tcp_site (r ∷ rs) = r.tcp_site

unfoldable pub with_site : Text → Option Text → Text
with_site sites none = sites
with_site sites (some site) = if is_empty sites then site else sites ++ bytes "," ++ site

-- The loop of `clutter_sites`, with `sites` so far.
unfoldable pub clutter_sites : Text → List StationSpec → Text
unfolding with_site find
clutter_sites sites [] = sites
clutter_sites sites (s ∷ ss) =
    clutter_sites (with_site sites (find (bytes "clutter_site") s.config)) ss

-- `default_family`
unfoldable pub default_family : List FamilySpec → Text
default_family [] = []
default_family (f ∷ fs) = f.id

-- `set_scene` of the runtime, with what the scene composes to.
unfoldable pub set_scene {ℓ κ μ} :
    {W : Type ℓ} {S : Type κ} {A : Type μ} → Text → Text → Runtime W S A → Runtime W S A
set_scene composed label rt = record rt {
  world = composed;
  desc = record (rt.desc) { world = label };
}

unfoldable pub scene_after {ℓ μ} :
    {W : Type ℓ} {A : Type μ} → Option (List (Node W A)) → Option Text → Option Text
scene_after none scene = scene
scene_after (some ns) scene = none

module _ {ℓ κ μ ν} {W : Type ℓ} {S : Type κ} {A : Type μ} {K : Type ν} where
  unfoldable pub attached : Option (Kinematics W) → CellGateway W S A K → CellGateway W S A K
  unfolding rebuild_trajectory
  attached none g = g
  attached (some k) g = record g {
    trajectory = rebuild_trajectory (record (g.trajectory) { kin = k });
  }

  unfoldable pub swapped :
      CellGateway W S A K
      → Runtime W S A × Status RuntimeError
      → CellGateway W S A K × Status RuntimeError
  swapped g (rt, st) = (record g { runtime = rt }, st)

  unfoldable pub started : CellGateway W S A K → CellGateway W S A K
  unfolding begin
  started g = record g { supervisor = (begin building g.supervisor).0 }

  -- `invalidate` runs under the cell lock, so only where there is a cell.
  unfoldable pub invalidated : CellGateway W S A K → CellGateway W S A K
  unfolding scene_after
  invalidated g = record g { scene = scene_after g.runtime.cell g.scene }

  -- `swap_scene` up to the build: the scene is set, and no family is live.
  unfoldable pub on_scene : Text → Text → CellGateway W S A K → CellGateway W S A K
  unfolding set_scene invalidated
  on_scene composed label g =
      record (invalidated (record g { runtime = set_scene composed label g.runtime })) {
        family = [];
      }

module _ {ℓ κ μ ν} {W : Type ℓ} {S : Type κ} {A : Type μ} {K : Type ν} ⦃d : Double W⦄
    (show : W → Text) (say : RuntimeError → Text)
    (open_kinematics : Text → List Text → Text → Option (Kinematics W)) (io : Drivers W S A) where
  unfoldable pub attach_kinematics : CellGateway W S A K → CellGateway W S A K
  unfolding attached joint_names tcp_site
  attach_kinematics g =
      let desc = g.runtime.desc in
      attached
        (open_kinematics g.runtime.world (joint_names desc.robots desc.nodes)
          (tcp_site desc.robots))
        g

  -- What the build of the runtime leaves, taken over where it succeeds.
  unfoldable pub taken_over :
      Text
      → CellGateway W S A K
      → Runtime W S A × Status RuntimeError
      → CellGateway W S A K × Status GatewayError
  unfolding fault end rebuild_control rebuild_trajectory limits joint_map joint_bounds
  taken_over name g (rt, err why) = (
    record g { runtime = rt; supervisor = fault (command_failed (say why)) g.supervisor },
    err (not_built why),
  )
  taken_over name g (rt, ok _) =
      let arm = joint_map [] rt in
      (
        record g {
          runtime = rt;
          control = rebuild_control (limits rt) g.control;
          arm = arm;
          family = name;
          trajectory =
              rebuild_trajectory
                (record (g.trajectory) { bounds = joint_bounds [] rt; weights = arm.weights });
          supervisor = end idle g.supervisor;
        },
        success,
      )

  -- `build`. A family that is live already is not built again. What `begin` says is not heeded.
  unfoldable pub build_family :
      Text → CellGateway W S A K → CellGateway W S A K × Status GatewayError
  unfolding text_eq started taken_over build
  build_family name g =
      if text_eq name g.family && not (is_empty g.arm.slots)
      then (g, success)
      else taken_over name (started g) (build show io name g.runtime)

  unfoldable pub swap_node :
      Text → Text → CellGateway W S A K → CellGateway W S A K × Status RuntimeError
  unfolding swapped swap_driver
  swap_node node driver g = swapped g (swap_driver io node driver g.runtime)

  unfoldable pub scene_live :
      CellGateway W S A K × Status GatewayError → CellGateway W S A K × Status GatewayError
  unfolding attach_kinematics clutter_sites
  scene_live (g, err why) = (g, err why)
  scene_live (g, ok _) =
      let g' = attach_kinematics g in
      (record g' { clutter = clutter_sites [] g'.runtime.desc.stations }, success)

  unfoldable pub swap_scene :
      Result Text Text → Text → CellGateway W S A K → CellGateway W S A K × Status GatewayError
  unfolding on_scene build_family scene_live
  swap_scene (err why) label g = (g, err (bad_scene why))
  swap_scene (ok composed) label g = scene_live (build_family g.family (on_scene composed label g))

  -- A request to the gateway.
  unfoldable pub request : Request → CellGateway W S A K → CellGateway W S A K
  unfolding build_family swap_node swap_scene
  request (builds name) g = (build_family name g).0
  request (swaps_node node driver) g = (swap_node node driver g).0
  request (swaps_scene scene label) g = (swap_scene scene label g).0

  unfoldable pub request_all : List Request → CellGateway W S A K → CellGateway W S A K
  unfolding request
  request_all [] g = g
  request_all (q ∷ qs) g = request_all qs (request q g)
