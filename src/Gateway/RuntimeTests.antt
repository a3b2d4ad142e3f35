-- ===== src/Gateway/RuntimeTests.antt =====
-- The theorems on the runtime, the motion service and the tool, over whole numbers.
use robonode.Prelude.{ℕ, ◌+◌, ◌≡◌, refl, true, false, none, some, List, [], ◌∷◌, Text, bytes}
use robonode.Core.Result.{ok, err}
use robonode.Core.Double.Whole.{Whole, whole, Whole-IsOrdered}
use robonode.Core.Geometry.{Vec3}
use robonode.Motion.Governor.{dp_max}
use robonode.Celld.CellDescriptor.{validate}
use robonode.Celld.Run.{period_of}
use robonode.Celld.Example.{num, World, devices, rail, world, cell, direct, described}
use robonode.Gateway.Runtime.{Runtime, build}
use robonode.Gateway.Runtime.Build.{BuildEnds, build-BuildEnds}
use robonode.Gateway.MotionService.{ServiceSettings}
use robonode.Gateway.MotionService.Execute.{Axes, execute}
use robonode.Gateway.MotionService.Safe.{ExecuteEnds, execute-ExecuteEnds}
use robonode.Sandbox.Program.{ByteCode, load_input}
use robonode.Gateway.Planner.{SandboxedPlanner, MoveL, plan}
use robonode.Gateway.Planner.Workspace.{StaysInside, plan-StaysInside}
use robonode.Core.Map.{find}
use robonode.Motion.ModuleRegistry.{Factory}
use robonode.Gateway.Capability.{Capability, later, selects, installs, change_all}
use robonode.Gateway.Capability.Live.{IsLive, change_all-IsLive}
use robonode.Gateway.Gripper.{Workpiece, not_moved, nothing_held, Hold, close, grasp, release}
use robonode.Gateway.Gripper.Holds.{GraspEnds, grasp-GraspEnds, release-refused}

abbrev empty : Runtime Whole World ℕ
empty = record {
  world = bytes "line.xml";
  desc = described;
  physics = record world { made = 0 };
  cell = none;
  robots = [];
  family = bytes "physics";
  carrier_weight = num 1;
}

build-BuildEnds_example :
    BuildEnds (bytes "physics") empty (build (λ x. bytes "10") devices (bytes "physics") empty)
unfolding validate
build-BuildEnds_example = build-BuildEnds (bytes "physics") empty (λ x. bytes "10") devices refl

abbrev settings : ServiceSettings Whole
settings = record {
  rate_hz = num 1;
  settle_s = num 2;
  stop_time_s = num 1;
  motion = record { limit_tolerance = num 0; max_duration_s = num 60 };
}

abbrev axes : Axes Whole
axes = record {
  limits = rail ∷ rail ∷ [];
  ids = bytes "x" ∷ bytes "y" ∷ [];
  units = bytes "mm" ∷ bytes "mm" ∷ [];
}

abbrev waypoints : List (List Whole)
waypoints = (num 50 ∷ num 80 ∷ []) ∷ (num 50 ∷ num 50 ∷ []) ∷ []

execute-ExecuteEnds_example :
    ExecuteEnds Whole-IsOrdered devices settings direct
      (λ c. false)
      false
      axes
      waypoints
      (num 2)
      cell
      (execute devices settings direct (λ c. false) false axes waypoints (num 2) cell)
unfolding dp_max period_of
execute-ExecuteEnds_example =
    execute-ExecuteEnds Whole-IsOrdered devices settings direct (λ c. false) false axes waypoints
      (num 2) cell
      (
        record { finite_min = refl; finite_max = refl; ordered = refl },
        refl,
        (record { finite_min = refl; finite_max = refl; ordered = refl }, refl, tt),
      )
      (λ i x a w. refl) (refl, (refl, refl), (refl, (refl, refl), tt))

abbrev origin : Vec3 Whole
origin = record { x = num 0; y = num 0; z = num 0 }

abbrev part : Workpiece Whole
part = record { reach = num 1; tool = some origin; seen = some origin; held = false }

-- A world, of one number, that refuses to move the tool.
abbrev stuck : Hold ℕ
stuck = some (λ grip s. (s, err not_moved))

grasp-GraspEnds_example : GraspEnds (λ v. v.x) part (grasp (λ v. v.x) stuck part 4)
grasp-GraspEnds_example = grasp-GraspEnds (λ v. v.x) stuck part 4

release-refused_example :
    (release stuck (record part { held = true }) 4 ≡ ((part, 4), err not_moved))
    × (release stuck part 4 ≡ ((part, 4), err nothing_held))
unfolding close
release-refused_example =
    release-refused stuck (record part { held = true }) 4 4 not_moved refl refl

abbrev loads : ℕ → ByteCode Whole
loads i = record { op = load_input; value = num 0; input = i } ∷ []

-- The target itself is passed and reached.
abbrev planner : SandboxedPlanner Whole
planner = record {
  program = record {
    channels = loads 0 ∷ loads 1 ∷ loads 2 ∷ loads 0 ∷ loads 1 ∷ loads 2 ∷ [];
    input_count = 3;
  };
  limits = record { max_ops = 8; max_stack = 8 };
  lo = origin;
  hi = record { x = num 9; y = num 9; z = num 9 };
}

-- One joint, which goes to the height of the point.
abbrev lift : MoveL Text Whole
lift = λ q point. ok ((point.z ∷ []) ∷ [])

abbrev over_part : Vec3 Whole
over_part = record { x = num 1; y = num 2; z = num 3 }

plan-StaysInside_example :
    StaysInside lift planner (num 0 ∷ []) over_part ((num 3 ∷ num 3 ∷ []) ∷ [])
unfolding plan
plan-StaysInside_example =
    plan-StaysInside lift planner (num 0 ∷ []) over_part origin ((num 3 ∷ num 3 ∷ []) ∷ []) refl

-- A version makes the double of what it is given.
abbrev doubles : Factory ℕ ℕ
doubles n = some (n + n)

abbrev tracking : Capability ℕ ℕ
tracking = record {
  registry = (bytes "snapshot", λ n. some n) ∷ [];
  version = bytes "snapshot";
  current = some 3;
  versions = [];
}

change_all-IsLive_example :
    IsLive 3
      (change_all 3 (installs (bytes "mine") doubles later ∷ selects (bytes "mine") ∷ []) tracking)
unfolding find
change_all-IsLive_example =
    change_all-IsLive 3 (installs (bytes "mine") doubles later ∷ selects (bytes "mine") ∷ [])
      tracking ((λ n. some n), refl, refl)
