-- ===== src/Motion/Planner/Posing.antt =====
-- `CartesianPosePlanner` of motion/planner.hpp: the tool goes in a straight line, and turns on the way.
pub mod Poses
use robonode.Prelude.{ℕ, zero, suc, ◌+◌, if◌then◌else◌, List, [], ◌∷◌, map, bytes}
use robonode.Core.Double.{Double, nought, one}
use robonode.Core.Geometry.{Maths, Vec3, Quat, Pose, minus, plus, scaled, normalized}
use robonode.Core.Result.{Result, ok, err, ◌>>=◌}
use robonode.Motion.Kinematics.{Kinematics, joint, cartesian_position, cartesian_pose}
use robonode.Motion.Waypoints.{push_column}
use robonode.Motion.Cartesian.Ik.{IkOptions, IkError}
use robonode.Motion.Cartesian.Reach.{ik_pose}
use robonode.Motion.Planner.{Refusal, wrong_goal, pose_unreachable, Planner, name_of}
use robonode.Motion.Planner.Avoiding.{steps_of}

unfoldable pub pose_step {ℓ} : {A : Type ℓ} → ℕ → Result IkError A → Result Refusal A
pose_step s (ok a) = ok a
pose_step s (err why) = err (pose_unreachable s why)

module _ {ℓ} {W : Type ℓ} ⦃d : Double W⦄ ⦃m : Maths W⦄ where
  -- `wa * a + wb * b`, entry by entry.
  unfoldable pub blended : W → Quat W → W → Quat W → Quat W
  blended wa a wb b = record {
    w = d.add (d.mul wa a.w) (d.mul wb b.w);
    x = d.add (d.mul wa a.x) (d.mul wb b.x);
    y = d.add (d.mul wa a.y) (d.mul wb b.y);
    z = d.add (d.mul wa a.z) (d.mul wb b.z);
  }

  unfoldable pub lerp : Quat W → Quat W → W → Quat W
  lerp a b t = record {
    w = d.add a.w (d.mul t (d.sub b.w a.w));
    x = d.add a.x (d.mul t (d.sub b.x a.x));
    y = d.add a.y (d.mul t (d.sub b.y a.y));
    z = d.add a.z (d.mul t (d.sub b.z a.z));
  }

  -- `slerp`, once `a` is on the side of `b`.
  unfoldable pub shortest_arc : Quat W → W → Quat W → W → Quat W
  unfolding lerp blended normalized
  shortest_arc a dot b t =
      let theta = m.acos dot in
      let sin_theta = m.sin theta in
      if d.lt (d.decimal 9995 4) dot
      then normalized (lerp a b t)
      else normalized (
          blended (d.div (m.sin (d.mul (d.sub one t) theta)) sin_theta) a
            (d.div (m.sin (d.mul t theta)) sin_theta) b)

  unfoldable pub slerp : Quat W → Quat W → W → Quat W
  unfolding shortest_arc
  slerp a b t =
      let dot =
        d.add (d.add (d.add (d.mul a.w b.w) (d.mul a.x b.x)) (d.mul a.y b.y)) (d.mul a.z b.z) in
      if d.lt dot nought
      then shortest_arc (record { w = d.neg a.w; x = d.neg a.x; y = d.neg a.y; z = d.neg a.z })
          (d.neg dot) b t
      else shortest_arc a dot b t

  -- The pose to pass after `s` of `n_steps` steps.
  unfoldable pub via_pose : Pose W → Pose W → ℕ → ℕ → Pose W
  unfolding plus scaled minus slerp
  via_pose start goal n_steps s =
      let t = d.div (d.of_nat s) (d.of_nat n_steps) in
      record {
        position = plus start.position (scaled (minus goal.position start.position) t);
        orientation = slerp start.orientation goal.orientation t;
      }

  -- The loop, from the step `s`.
  unfoldable pub pose_walk :
      Kinematics W
      → IkOptions W
      → (ℕ → Pose W)
      → ℕ
      → ℕ
      → List W
      → List (List W)
      → Result Refusal (List (List W))
  unfolding pose_step ik_pose push_column
  pose_walk kin ik via zero s q wps = ok wps
  pose_walk kin ik via (suc left) s q wps = do
    q_next ← pose_step s (ik_pose kin q (via s) ik)
    pose_walk kin ik via left (s + 1) q_next (push_column wps q_next)

  unfoldable pub pose_plan : Kinematics W → ℕ → IkOptions W → Planner W
  unfolding name_of steps_of pose_walk via_pose
  pose_plan kin n_steps ik start_q (cartesian_pose pose) =
      pose_walk kin ik (via_pose (kin.tcp_pose start_q) pose (steps_of n_steps)) (steps_of n_steps)
        1 start_q (map (λ x. x ∷ []) start_q)
  pose_plan kin n_steps ik start_q (joint q) =
      err (wrong_goal (bytes "CartesianPosePlanner") (name_of (joint q)))
  pose_plan kin n_steps ik start_q (cartesian_position target velocity) =
      err (wrong_goal (bytes "CartesianPosePlanner") (name_of (cartesian_position target velocity)))
