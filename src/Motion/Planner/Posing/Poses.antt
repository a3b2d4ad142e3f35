-- ===== src/Motion/Planner/Posing/Poses.antt =====
-- The plans of `CartesianPosePlanner` of motion/planner.hpp pass the poses that it asks for.
use robonode.Prelude.{ℕ, zero, suc, true, ◌+◌, ◌<◌, ◌≤◌, ◌≡◌, refl, List, length, arith, All}
use mathlib.Core.Path.{subst}
use robonode.Core.Double.{Double, nought}
use robonode.Core.Geometry.{Maths, Pose}
use robonode.Core.Result.{Result, ok, Post, returns, raises, Post-bind, Post-ok}
use robonode.Motion.Kinematics.{Kinematics, cartesian_pose}
use robonode.Motion.Waypoints.{column}
use robonode.Motion.Waypoints.Table.{IsTable, push-IsTable, first-IsTable}
use robonode.Motion.Cartesian.Ik.{IkOptions, IkError}
use robonode.Motion.Cartesian.Ik.Within.{IsTravel, InTravel, Posture}
use robonode.Motion.Cartesian.Reach.{ik_pose}
use robonode.Motion.Cartesian.Reach.Solves.{IsPosed, ik_pose-Poses}
use robonode.Motion.Planner.{Refusal}
use robonode.Motion.Planner.Avoiding.{steps_of}
use robonode.Motion.Planner.Posing.{pose_step, via_pose, pose_walk, pose_plan}

module _ {ℓ} {W : Type ℓ} ⦃d : Double W⦄ ⦃m : Maths W⦄ (kin : Kinematics W) (opt : IkOptions W)
    (bounded : All IsTravel opt.bounds) where
  -- The pose is reached, and every joint is inside its travel.
  abbrev pub Poses : Pose W → List W → Type 0
  Poses target q = IsPosed kin opt bounded target q × Posture kin opt bounded q

  abbrev IsArc : (ℕ → Pose W) → List W → ℕ → List (List W) → Type ℓ
  IsArc via q_start n wps = IsTable (λ j q. Poses (via j) q) kin.dof q_start n wps

  abbrev Any : Refusal → Type 0
  Any e = Unit

  step-Poses :
      (s : ℕ) (q : List W) (target : Pose W)
      → d.lt nought opt.orientation_weight ≡ true
      → InTravel opt.bounds 0 q
      → Post (Poses target) Any (pose_step s (ik_pose kin q target opt))
  unfolding pose_step
  step-Poses s q target heavy inside = go (ik_pose-Poses kin opt bounded q target heavy inside)
    where
      go :
          {r : Result IkError (List W)}
          → Post (Poses target) (λ e. Unit) r
          → Post (Poses target) Any (pose_step s r)
      go (returns h) = returns h
      go (raises h) = raises tt

  pose_walk-IsArc :
      (via : ℕ → Pose W) (q_start : List W) (left n s stop : ℕ) (q : List W) (wps : List (List W))
      → s ≡ suc n
      → n + left ≡ stop
      → d.lt nought opt.orientation_weight ≡ true
      → InTravel opt.bounds 0 q
      → IsArc via q_start n wps
      → Post (IsArc via q_start stop) Any (pose_walk kin opt via left s q wps)
  unfolding pose_walk
  pose_walk-IsArc via q_start zero n s stop q wps e end heavy inside i =
      returns (subst (λ k. IsArc via q_start k wps) (omega (arith, end)) i)
  pose_walk-IsArc via q_start (suc left) n s stop q wps e end heavy inside i =
      Post-bind (step-Poses s q (via s) heavy inside) (λ q' (posed, posture).
        pose_walk-IsArc via q_start left (suc n) (s + 1) stop q' _ (omega (arith, e))
          (omega (arith, end)) heavy posture.1
          (push-IsTable i posture.0 (subst (λ k. Poses (via k) q') e (posed, posture))))

  -- Where turns are weighed, and the bounds are travels: each configuration of a plan for a pose after
  -- the first, from a start that has a value for each joint and all of them inside their travel, has
  -- the tool at its position of the line closer than the tolerance, turned from its orientation of the
  -- arc by less than the tolerance of turns, and every joint inside its travel.
  pub pose_plan-Poses :
      (n_steps : ℕ) (q_start : List W) (goal : Pose W) (wps : List (List W)) (s : ℕ)
      → length q_start ≡ kin.dof
      → d.lt nought opt.orientation_weight ≡ true
      → InTravel opt.bounds 0 q_start
      → pose_plan kin n_steps opt q_start (cartesian_pose goal) ≡ ok wps
      → 0 < s
      → s ≤ steps_of n_steps
      → Poses (via_pose (kin.tcp_pose q_start) goal (steps_of n_steps) s) (column s wps)
  unfolding pose_plan
  pose_plan-Poses n_steps q_start goal wps s size heavy inside done pos below =
      made.points s pos below
    where
      via : ℕ → Pose W
      via = via_pose (kin.tcp_pose q_start) goal (steps_of n_steps)

      made : IsArc via q_start (steps_of n_steps) wps
      made = Post-ok (
          subst (Post (IsArc via q_start (steps_of n_steps)) Any) done (
            pose_walk-IsArc via q_start (steps_of n_steps) 0 1 _ q_start _ refl (omega arith) heavy
              inside (first-IsTable (λ j q. Poses (via j) q) q_start size)))
