-- ===== src/Motion/PlanningTests.antt =====
-- Concrete plans of motion/planner.hpp over whole numbers, for a gantry whose joints are the
-- coordinates of its tool, and the theorems at concrete inputs.
use robonode.Prelude.{
  ℕ, zero, suc, ◌+◌, ◌*◌, ◌<◌, ◌≡◌, refl, leb, Bool, false, ◌&&◌, if◌then◌else◌, none, some, List,
  [], ◌∷◌, length, All, arith,
}
use robonode.Prelude.Int.{pos, pos_part}
use robonode.Core.Double.Whole.{Whole, whole}
use robonode.Core.Geometry.{Maths, Vec3, Pose}
use robonode.Core.Result.{ok, err}
use robonode.Motion.Kinematics.{
  Kinematics, JointBound, cartesian_position, cartesian_pose, position_only,
}
use robonode.Motion.Waypoints.{at, column}
use robonode.Motion.Waypoints.Table.{AllLength}
use robonode.Motion.Cartesian.Ik.{IkOptions, middle}
use robonode.Motion.Cartesian.Ik.Within.{IsTravel}
use robonode.Motion.Cartesian.Reach.Solves.{Reaches}
use robonode.Motion.Cartesian.MoveL.{on_line, plan_move_l}
use robonode.Motion.Cartesian.MoveL.Line.{plan_move_l-Reaches}
use robonode.Motion.Cartesian.MoveL.Chain.{plan_move_l-linked}
use robonode.Motion.Cartesian.Reach.{ik_position}
use robonode.Motion.Planner.{no_way_round, link_sweeps}
use robonode.Motion.Planner.Avoiding.{steps_in, steps_of, avoiding_plan}
use robonode.Motion.Planner.Avoiding.Clear.{avoiding_plan-clear}
use robonode.Motion.Planner.Posing.{via_pose, pose_plan}
use robonode.Motion.Planner.Posing.Poses.{Poses, pose_plan-Poses}

abbrev num : ℕ → Whole
num n = some (pos n)

-- The root, rounded down, of a number of which it is at most `r`.
abbrev root : ℕ → ℕ → ℕ
root zero n = 0
root (suc r) n = if leb (suc r * suc r) n then suc r else root r n

instance abbrev maths : Maths Whole
maths = record {
  sqrt = λ x. elim x [ none ↦ none | some a ↦ num (root 60 (pos_part a)) ];
  atan2 = λ y x. y;
  acos = λ x. x;
  sin = λ x. x;
}

abbrev point : ℕ → ℕ → ℕ → Vec3 Whole
point x y z = record { x = num x; y = num y; z = num z }

abbrev tool_at : List Whole → Vec3 Whole
tool_at (x ∷ y ∷ z ∷ []) = record { x = x; y = y; z = z }
tool_at _ = point 0 0 0

abbrev unit_matrix : List Whole
unit_matrix = num 1 ∷ num 0 ∷ num 0 ∷ num 0 ∷ num 1 ∷ num 0 ∷ num 0 ∷ num 0 ∷ num 1 ∷ []

abbrev gantry : Kinematics Whole
gantry = position_only 3 tool_at (λ q. unit_matrix)

-- A block between 40 and 60 on the floor, as high as 9.
abbrev guarded : Kinematics Whole
guarded = record gantry {
  can_check_collision = Bool.true;
  in_collision = λ q.
      let p = tool_at q in whole.lt (num 40) p.x && whole.lt p.x (num 60) && whole.lt p.z (num 9);
}

abbrev axis_travel : JointBound Whole
axis_travel = record { lo = num 0; hi = num 100 }

axis_travel-IsTravel : IsTravel axis_travel
unfolding middle
axis_travel-IsTravel = record {
  lo_inside = (refl, refl);
  hi_inside = (refl, refl);
  middle_inside = (refl, refl);
}

abbrev options : IkOptions Whole
options = record {
  lambda = num 0;
  tol_m = num 1;
  max_iters = 5;
  max_step_rad = num 50;
  bounds = axis_travel ∷ axis_travel ∷ axis_travel ∷ [];
  weights = [];
  tol_rad = num 1;
  orientation_weight = num 1;
}

bounded : All IsTravel options.bounds
bounded = (axis_travel-IsTravel, (axis_travel-IsTravel, (axis_travel-IsTravel, tt)))

abbrev home : List Whole
home = num 10 ∷ num 20 ∷ num 0 ∷ []

abbrev across : List (List Whole)
across =
    (num 10 ∷ num 10 ∷ num 90 ∷ [])
    ∷ (num 20 ∷ num 20 ∷ num 20 ∷ [])
    ∷ (num 0 ∷ num 0 ∷ num 7 ∷ [])
    ∷ []

move_across : plan_move_l gantry home (point 90 20 7) 2 options ≡ ok across
unfolding plan_move_l position_only
move_across = refl

plan_move_l-linked_example :
    (length across ≡ 3)
    × AllLength 3 across
    × (column 0 across ≡ home)
    × ((j : ℕ)
        → j < 2
        → ik_position gantry
            (column j across)
            (on_line (point 10 20 0) (point 90 20 7) 2 (j + 1))
            options
          ≡ ok (column (j + 1) across))
unfolding position_only
plan_move_l-linked_example =
    plan_move_l-linked gantry options home (point 90 20 7) 2 across move_across

plan_move_l-Reaches_example :
    Reaches gantry options bounded
      (on_line (point 10 20 0) (point 90 20 7) 2 2)
      (num 90 ∷ num 20 ∷ num 7 ∷ [])
unfolding position_only column at
plan_move_l-Reaches_example =
    plan_move_l-Reaches gantry options bounded home (point 90 20 7) 2 across 2
      ((refl, refl), ((refl, refl), ((refl, refl), tt))) move_across (omega arith) (omega arith)

-- The straight way along the floor ends in the block, and so does every way over it.
into_block :
    avoiding_plan guarded 1 (num 10) options home (cartesian_position (point 50 20 0) (point 0 0 0))
    ≡ err (no_way_round (link_sweeps 30000) 30000)
unfolding avoiding_plan position_only
into_block = refl

past_block :
    avoiding_plan guarded 2 (num 10) options home (cartesian_position (point 90 20 7) (point 0 0 0))
    ≡ ok across
unfolding avoiding_plan position_only
past_block = refl

avoiding_plan-clear_example : guarded.in_collision (column 2 across) ≡ false
unfolding steps_in
avoiding_plan-clear_example =
    avoiding_plan-clear guarded 2 (num 10) options home
      (cartesian_position (point 90 20 7) (point 0 0 0)) across 2 past_block (omega arith)

-- Straight up and forward, as it points.
abbrev upright : Pose Whole
upright = record {
  position = point 90 20 7;
  orientation = record { w = num 1; x = num 0; y = num 0; z = num 0 };
}

posed_across : pose_plan gantry 2 options home (cartesian_pose upright) ≡ ok across
unfolding pose_plan position_only
posed_across = refl

pose_plan-Poses_example :
    Poses gantry options bounded
      (via_pose (gantry.tcp_pose home) upright 2 2)
      (num 90 ∷ num 20 ∷ num 7 ∷ [])
unfolding column at steps_of position_only
pose_plan-Poses_example =
    pose_plan-Poses gantry options bounded 2 home upright across 2 refl refl
      ((refl, refl), ((refl, refl), ((refl, refl), tt))) posed_across (omega arith) (omega arith)
