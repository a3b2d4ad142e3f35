-- ===== src/Celld/Tests.antt =====
-- The theorems on the cell of `Example`.
use robonode.Prelude.{ℕ, ◌≡◌, refl, ◌⊎◌, false, List, [], ◌∷◌, All, bytes, length, arith}
use robonode.Core.Result.{Result, ok, err}
use robonode.Core.Double.Whole.{Whole, whole, Whole-IsOrdered}
use robonode.Motion.Blend.{SyncBlendPlan, BlendError, make}
use robonode.Motion.Blend.Shape.{IsPlan}
use robonode.Motion.Blend.Accepts.{IsMove, make-cases}
use robonode.Motion.Governor.{dp_max}
use robonode.Celld.Driver.{inactive}
use robonode.Celld.Cell.{Node, CellError, message, replace_found}
use robonode.Celld.Run.{Ran, run_waypoints, period_of}
use robonode.Celld.Safety.{InLimits, AllActive}
use robonode.Celld.Safety.Waypoints.{run_waypoints-InLimits}
use robonode.Celld.Replace.{replace_found-inactive}
use robonode.Celld.Robot.{RobotNode, compose}
use robonode.Celld.Robot.Composed.{ComposesCell, compose-ComposesCell}
use robonode.Celld.Example.{
  num, World, devices, devices-IsLawful, in_state, rail, node, world, cell, direct,
}

abbrev waypoints : List (List Whole)
waypoints = (num 50 ∷ num 80 ∷ []) ∷ (num 50 ∷ num 50 ∷ []) ∷ []

make-cases_example :
    (IsMove waypoints (rail ∷ rail ∷ [])
      × ((p : SyncBlendPlan Whole) × (make waypoints (rail ∷ rail ∷ []) ≡ ok p)
          × IsPlan 1 waypoints p))
    ⊎ ((¬ IsMove waypoints (rail ∷ rail ∷ []))
        × ((e : BlendError) × (make waypoints (rail ∷ rail ∷ []) ≡ err e)))
make-cases_example = make-cases waypoints (rail ∷ rail ∷ [])

abbrev result : Result CellError (Ran Whole World ℕ) → Ran Whole World ℕ
result (ok ran) = ran
result (err why) = record {
  cell = cell;
  rows = [];
  stats = record { cycles = 0; safety_hold_cycles = 0; cancel_cycles = 0; stopped_early = false };
}

ran : Ran Whole World ℕ
ran = result (run_waypoints devices direct waypoints (num 1) (num 2) (num 1) (λ c. false) cell)

two_rows : length (ran.rows) ≡ 2
unfolding ran run_waypoints
two_rows = refl

run_waypoints-InLimits_example :
    AllActive devices world cell.nodes × All (InLimits (rail ∷ rail ∷ [])) ran.rows
unfolding ran run_waypoints dp_max period_of
run_waypoints-InLimits_example =
    run_waypoints-InLimits Whole-IsOrdered devices direct waypoints (num 1) (num 2) (num 1)
      (λ c. false) cell ran
      (
        record { finite_min = refl; finite_max = refl; ordered = refl },
        refl,
        (record { finite_min = refl; finite_max = refl; ordered = refl }, refl, tt),
      )
      (λ i x a w. refl) (refl, (refl, refl), (refl, (refl, refl), tt)) refl

abbrev axis : Node Whole ℕ
axis = node (bytes "x") 0

abbrev after_refusal : World
after_refusal = record (in_state 0 inactive world) { made = 8 }

replace_found-inactive_example :
    (replace_found devices (bytes "new") axis world
      ≡ ((after_refusal, axis), err (message (bytes "no such joint"))))
    × (after_refusal.life 0 ≡ inactive)
replace_found-inactive_example =
    replace_found-inactive devices devices-IsLawful (bytes "new") axis world after_refusal
      after_refusal 7 (bytes "no such joint") refl refl refl (ground arith)

abbrev robot : RobotNode Whole
robot = record {
  id = bytes "arm";
  tcp_site = bytes "tcp";
  joints = 1 ∷ [];
  per_m = num 10 ∷ [];
  weights = num 1 ∷ [];
  chain_ids = bytes "y" ∷ [];
}

compose-ComposesCell_example :
    ComposesCell devices 2
      (1 ∷ [])
      cell.nodes
      world
      ((num 50 ∷ num 50 ∷ []) ∷ (num 50 ∷ num 80 ∷ []) ∷ [])
unfolding compose
compose-ComposesCell_example =
    compose-ComposesCell devices robot cell ((num 5 ∷ num 8 ∷ []) ∷ [])
      ((num 50 ∷ num 50 ∷ []) ∷ (num 50 ∷ num 80 ∷ []) ∷ []) refl
