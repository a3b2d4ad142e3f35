-- ===== src/Motion/Cartesian/Reach/Solves.antt =====
-- What the inverse kinematics of motion/cartesian.hpp finds is where the tool was asked to be.
use mathlib.Core.Path.{subst}
use robonode.Prelude.{
  ◌≡◌, refl, ◌==◌, ==_iff, Bool, true, ◌&&◌, if◌then◌else◌, List, length, arith, All,
}
use robonode.Core.Double.{Double, nought, one}
use robonode.Core.Geometry.{Maths, Vec3, Quat, Pose, minus, scaled, norm}
use robonode.Core.Result.{Post, Post-guard, Post-weaken}
use robonode.Motion.Kinematics.{Kinematics}
use robonode.Motion.Waypoints.{at}
use robonode.Motion.Cartesian.Ik.{IkOptions}
use robonode.Motion.Cartesian.Ik.Within.{IsTravel, InTravel, Posture, Any, ik_two_seeds-Solved}
use robonode.Motion.Cartesian.Reach.{
  linear, angular, turn, turn_between, orientation_error, position_task, pose_task, pose_residual,
  ik_position, ik_pose,
}

module _ {ℓ} {W : Type ℓ} ⦃d : Double W⦄ ⦃m : Maths W⦄ (kin : Kinematics W) (opt : IkOptions W)
    (bounded : All IsTravel opt.bounds) where
  -- The tool is closer to the point than the tolerance.
  abbrev pub IsNear : Vec3 W → List W → Type 0
  IsNear target q = d.lt (norm (minus target (kin.tcp_position q))) opt.tol_m ≡ true

  abbrev pub Reaches : Vec3 W → List W → Type 0
  Reaches target q = IsNear target q × Posture kin opt bounded q

  pub ik_position-Reaches :
      (q_seed : List W) (target : Vec3 W)
      → InTravel opt.bounds 0 q_seed
      → Post (Reaches target) (Any kin opt bounded) (ik_position kin q_seed target opt)
  unfolding ik_position position_task linear at
  ik_position-Reaches q_seed target inside = Post-guard (length q_seed == kin.dof) _ tt (λ size.
      ik_two_seeds-Solved kin opt bounded (position_task kin target opt) q_seed
        ((==_iff _ _).0 size, inside))

  -- The quaternion of a turn from one orientation to another, taken the shorter way: the sign of its
  -- axis, and the axis.
  abbrev pub sign_of : Quat W → Quat W → W
  sign_of a b =
      if d.lt
        (d.add (d.add (d.add (d.mul a.w b.w) (d.mul a.x b.x)) (d.mul a.y b.y)) (d.mul a.z b.z))
        nought
      then d.neg one
      else one

  abbrev pub axis_of : Quat W → Quat W → Vec3 W
  axis_of a b = record {
    x = d.mul (sign_of a b) (
        d.add (d.sub (d.add (d.mul (d.neg a.w) b.x) (d.mul a.x b.w)) (d.mul a.y b.z))
          (d.mul a.z b.y));
    y = d.mul (sign_of a b) (
        d.sub (d.add (d.add (d.mul (d.neg a.w) b.y) (d.mul a.x b.z)) (d.mul a.y b.w))
          (d.mul a.z b.x));
    z = d.mul (sign_of a b) (
        d.add (d.add (d.sub (d.mul (d.neg a.w) b.z) (d.mul a.x b.y)) (d.mul a.y b.x))
          (d.mul a.z b.w));
  }

  -- The vector of the turn: along the axis, and as long as the angle, twice that of its sine and
  -- cosine; none where the sine is below 1e-9.
  abbrev pub turn_vector : Quat W → Quat W → Vec3 W
  turn_vector a b =
      let axis = axis_of a b in
      let cos_half =
        d.add (d.add (d.add (d.mul a.w b.w) (d.mul a.x b.x)) (d.mul a.y b.y)) (d.mul a.z b.z) in
      let angle = d.mul (d.of_nat 2) (m.atan2 (norm axis) (d.abs cos_half)) in
      if d.lt (norm axis) (d.decimal 1 9)
      then record { x = nought; y = nought; z = nought }
      else record {
        x = d.mul axis.x (d.div angle (norm axis));
        y = d.mul axis.y (d.div angle (norm axis));
        z = d.mul axis.z (d.div angle (norm axis));
      }

  -- The tool is closer to the position of the pose than the tolerance, and turned from its
  -- orientation by less than the tolerance of turns, as the code weighs the turn and takes the weight
  -- out again.
  abbrev pub IsPosed : Pose W → List W → Type 0
  IsPosed target q =
      let w = opt.orientation_weight in
      let turn_to = turn_vector target.orientation (kin.tcp_pose q).orientation in
      let weighed : Vec3 W = record {
        x = d.mul turn_to.x w;
        y = d.mul turn_to.y w;
        z = d.mul turn_to.z w;
      } in
      (d.lt (norm (minus target.position (kin.tcp_pose q).position)) opt.tol_m ≡ true)
      × (d.lt (d.div (norm weighed) w) opt.tol_rad ≡ true)

  turn-weighed : (w : W) (e : List W) → d.lt nought w ≡ true → turn w e ≡ d.div (norm (angular e)) w
  unfolding turn
  turn-weighed w e heavy = rw heavy refl

  pub ik_pose-Poses :
      (q_seed : List W) (target : Pose W)
      → d.lt nought opt.orientation_weight ≡ true
      → InTravel opt.bounds 0 q_seed
      → Post
          (λ q. IsPosed target q × Posture kin opt bounded q)
          (Any kin opt bounded)
          (ik_pose kin q_seed target opt)
  unfolding ik_pose pose_task linear angular at pose_residual orientation_error turn_between scaled
  ik_pose-Poses q_seed target heavy inside = Post-guard (length q_seed == kin.dof) _ tt (λ size.
      Post-weaken
        (ik_two_seeds-Solved kin opt bounded (pose_task kin target opt) q_seed
          ((==_iff _ _).0 size, inside))
        (λ q (reached, p).
          let (near, turned) = both _ _ reached in
          (
            (
              near,
              subst (λ x. d.lt x opt.tol_rad ≡ true)
                  (turn-weighed opt.orientation_weight
                    (pose_residual kin target opt.orientation_weight q) heavy)
                  turned,
            ),
            p,
          )))
    where
      both : (a b : Bool) → (a && b) ≡ true → (a ≡ true) × (b ≡ true)
      both a b h = (ground arith, ground arith)
