-- ===== src/Gateway/CellGatewayTests.antt =====
-- A gateway over whole numbers, whose eighth device refuses to be configured, and the theorems on it.
use robonode.Prelude.{ℕ, ◌≡◌, refl, none, some, List, [], ◌∷◌, Text, bytes, Option}
use robonode.Core.Map.{find}
use robonode.Core.Result.{ok, err, success}
use robonode.Core.Double.Whole.{Whole, whole}
use robonode.Core.Geometry.{Vec3}
use robonode.Motion.Kinematics.{Kinematics, position_only}
use robonode.Motion.ModuleRegistry.{Factory}
use robonode.Motion.Planner.{Planner, joint_plan}
use robonode.Motion.Planner.Registered.{PlannerContext}
use robonode.Celld.Example.{num, World, devices, world, described}
use robonode.Celld.Cell.{configures, verb_error}
use robonode.Gateway.Supervisor.{init}
use robonode.Gateway.Runtime.{Runtime, RuntimeError, cell_error}
use robonode.Gateway.Runtime.Views.{joint_map, joint_bounds}
use robonode.Gateway.Control.{Trajectory}
use robonode.Gateway.CellGateway.{
  CellGateway, not_built, build_family, swap_node, set_scene, swap_scene, builds, swaps_node,
  swaps_scene, request_all,
}
use robonode.Gateway.CellGateway.InStep.{IsInStep, request_all-IsInStep}
use robonode.Gateway.CellGateway.Stale.{runs, swap_scene-unbuilt, swap_node-unbuilt}

abbrev point : Vec3 Whole
point = record { x = num 0; y = num 0; z = num 0 }

abbrev chain : Kinematics Whole
chain = position_only 2 (λ q. point) (λ q. [])

abbrev by_joints : Factory (Planner Whole) (PlannerContext Whole)
by_joints c = some joint_plan

abbrev trajectory : Trajectory Whole
trajectory = record {
  registry = (bytes "joints", by_joints) ∷ [];
  version = bytes "joints";
  planner = some joint_plan;
  kin = chain;
  bounds = [];
  weights = [];
  ik = record {
    lambda = num 0;
    tol_m = num 1;
    max_iters = 5;
    max_step_rad = num 50;
    carrier_weight = num 1;
    line_steps = 2;
    sandbox_line_steps = 2;
    lead_in_s = num 1;
    tol_rad = num 1;
    orientation_weight = num 1;
    clearance_m = num 1;
  };
  workspace_lo = point;
  workspace_hi = point;
}

-- Four devices are made already.
abbrev unbuilt : Runtime Whole World ℕ
unbuilt = record {
  world = bytes "line.xml";
  desc = described;
  physics = record world { made = 4 };
  cell = none;
  robots = [];
  family = bytes "physics";
  carrier_weight = num 1;
}

abbrev fresh : CellGateway Whole World ℕ ℕ
fresh = record {
  runtime = unbuilt;
  supervisor = init;
  control = record { registry = []; version = []; limits = []; controllers = [] };
  trajectory = trajectory;
  arm = record { slots = []; per_m = []; weights = []; chain_ids = [] };
  family = bytes "physics";
  scene = none;
  clutter = [];
}

abbrev show : Whole → Text
show x = bytes "10"

abbrev say : RuntimeError → Text
say why = bytes "refused"

abbrev opened : Text → List Text → Text → Option (Kinematics Whole)
opened composed names tcp = some chain

abbrev live : CellGateway Whole World ℕ ℕ
live = (build_family show say opened devices (bytes "physics") fresh).0

fresh-IsInStep : IsInStep by_joints fresh
unfolding joint_map joint_bounds find
fresh-IsInStep = record {
  arm = refl;
  bounds = refl;
  weights = refl;
  version = refl;
  planner = refl;
}

-- The cell is built; its scene is changed, which fails, and changed again.
request_all-IsInStep_example : IsInStep by_joints (
    request_all show say opened devices
      (builds (bytes "physics")
        ∷ swaps_scene (ok (bytes "first")) (bytes "one")
        ∷ swaps_node (bytes "x") (bytes "soft")
        ∷ swaps_scene (err (bytes "no such part")) (bytes "two")
        ∷ [])
      fresh)
request_all-IsInStep_example =
    request_all-IsInStep by_joints show say opened devices
      (builds (bytes "physics")
        ∷ swaps_scene (ok (bytes "first")) (bytes "one")
        ∷ swaps_node (bytes "x") (bytes "soft")
        ∷ swaps_scene (err (bytes "no such part")) (bytes "two")
        ∷ [])
      fresh fresh-IsInStep

live_slots : live.arm.slots ≡ 0 ∷ 1 ∷ []
unfolding build_family
live_slots = refl

first_refused :
    (swap_scene show say opened devices (ok (bytes "first")) (bytes "one") live).1
    ≡ err (not_built (cell_error (verb_error (bytes "y") configures (bytes "no such joint"))))
unfolding swap_scene build_family
first_refused = refl

swap_scene-unbuilt_example :
    let g = (swap_scene show say opened devices (ok (bytes "first")) (bytes "one") live).0 in
    let (g', st) = swap_scene show say opened devices (ok (bytes "second")) (bytes "two") g in
    (st ≡ success)
    × (g'.runtime ≡ set_scene (bytes "second") (bytes "two") g.runtime)
    × (g'.supervisor ≡ g.supervisor)
unfolding build_family
swap_scene-unbuilt_example =
    swap_scene-unbuilt show say opened devices (bytes "first") (bytes "second") (bytes "one")
      (bytes "two") live
      (not_built (cell_error (verb_error (bytes "y") configures (bytes "no such joint"))))
      first_refused refl

swap_node-unbuilt_example :
    let g = (swap_node show say opened devices (bytes "x") (bytes "soft") live).0 in
    (build_family show say opened devices (bytes "physics") g ≡ (g, success))
    × (runs (bytes "x") g.runtime ≡ some (bytes "soft"))
unfolding build_family swap_node
swap_node-unbuilt_example =
    swap_node-unbuilt show say opened devices (bytes "x") (bytes "soft") live refl refl
