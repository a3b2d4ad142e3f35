-- ===== src/Motion/Cartesian/Reach.antt =====
-- What motion/cartesian.hpp solves for: a position, or a pose, of the tool.
pub mod Solves
use robonode.Prelude.{
  ℕ, zero, suc, ◌+◌, ◌*◌, ◌==◌, Bool, true, false, ◌&&◌, if◌then◌else◌, Option, none, some, List,
  [], ◌∷◌, length,
}
use robonode.Core.Double.{Double, nought, one}
use robonode.Core.Geometry.{Maths, Vec3, Quat, Pose, origin, minus, scaled, norm}
use robonode.Core.Result.{Result, err, ◌>>=◌, ◌>>◌, guard}
use robonode.Motion.Kinematics.{Kinematics}
use robonode.Motion.Waypoints.{at}
use robonode.Motion.Cartesian.Ik.{IkOptions, IkTask, IkError, seed_size, ik_two_seeds}

module _ {ℓ} {W : Type ℓ} ⦃d : Double W⦄ where
  -- The first three entries of a residual, and the three after them.
  unfoldable pub linear : List W → Vec3 W
  unfolding at
  linear e = record { x = at e 0; y = at e 1; z = at e 2 }

  unfoldable pub angular : List W → Vec3 W
  unfolding at
  angular e = record { x = at e 3; y = at e 4; z = at e 5 }

  -- `j[r * n + k] *= w` from the entry `skip` on.
  unfoldable pub weighed : W → ℕ → List W → List W
  weighed w skip [] = []
  weighed w zero (j ∷ js) = d.mul j w ∷ weighed w zero js
  weighed w (suc skip) (j ∷ js) = j ∷ weighed w skip js

  -- The difference of two orientations as a quaternion.
  unfoldable pub turn_between : Quat W → Quat W → Quat W
  turn_between a b = record {
    w = d.add (d.add (d.add (d.mul a.w b.w) (d.mul a.x b.x)) (d.mul a.y b.y)) (d.mul a.z b.z);
    x =
        d.add (d.sub (d.add (d.mul (d.neg a.w) b.x) (d.mul a.x b.w)) (d.mul a.y b.z))
          (d.mul a.z b.y);
    y =
        d.sub (d.add (d.add (d.mul (d.neg a.w) b.y) (d.mul a.x b.z)) (d.mul a.y b.w))
          (d.mul a.z b.x);
    z =
        d.add (d.add (d.sub (d.mul (d.neg a.w) b.z) (d.mul a.x b.y)) (d.mul a.y b.x))
          (d.mul a.z b.w);
  }

  module _ ⦃m : Maths W⦄ where
    unfoldable pub orientation_error : Quat W → Quat W → Vec3 W
    unfolding turn_between norm scaled
    orientation_error want have =
        let e = turn_between want have in
        let sign = if d.lt e.w nought then d.neg one else one in
        let axis : Vec3 W = record { x = d.mul sign e.x; y = d.mul sign e.y; z = d.mul sign e.z } in
        let sin_half = norm axis in
        let angle = d.mul (d.of_nat 2) (m.atan2 sin_half (d.abs e.w)) in
        if d.lt sin_half (d.decimal 1 9) then origin else scaled axis (d.div angle sin_half)

    unfoldable pub position_task : Kinematics W → Vec3 W → IkOptions W → IkTask W
    unfolding minus norm linear
    position_task kin target opt = record {
      rows = 3;
      residual = λ q. let e = minus target (kin.tcp_position q) in e.x ∷ e.y ∷ e.z ∷ [];
      jacobian = kin.position_jacobian;
      distance = λ e. norm (linear e);
      reached = λ e. d.lt (norm (linear e)) opt.tol_m;
    }

    unfoldable pub ik_position :
        Kinematics W → List W → Vec3 W → IkOptions W → Result IkError (List W)
    unfolding position_task ik_two_seeds
    ik_position kin q_seed target opt = do
      guard (length q_seed == kin.dof) seed_size
      ik_two_seeds kin q_seed (position_task kin target opt) opt

    unfoldable pub pose_residual : Kinematics W → Pose W → W → List W → List W
    unfolding minus scaled orientation_error
    pose_residual kin target w q =
        let now = kin.tcp_pose q in
        let dp = minus target.position now.position in
        let dr = scaled (orientation_error target.orientation now.orientation) w in
        dp.x ∷ dp.y ∷ dp.z ∷ dr.x ∷ dr.y ∷ dr.z ∷ []

    unfoldable pub turn : W → List W → W
    unfolding norm angular
    turn w e = if d.lt nought w then d.div (norm (angular e)) w else nought

    unfoldable pub pose_task : Kinematics W → Pose W → IkOptions W → IkTask W
    unfolding pose_residual weighed norm linear turn
    pose_task kin target opt =
        let w = opt.orientation_weight in
        record {
          rows = 6;
          residual = pose_residual kin target w;
          jacobian = λ q. weighed w (3 * kin.dof) (kin.jacobian q);
          distance = λ e. norm (linear e);
          reached = λ e. d.lt (norm (linear e)) opt.tol_m && d.lt (turn w e) opt.tol_rad;
        }

    unfoldable pub ik_pose : Kinematics W → List W → Pose W → IkOptions W → Result IkError (List W)
    unfolding pose_task ik_two_seeds
    ik_pose kin q_seed target opt = do
      guard (length q_seed == kin.dof) seed_size
      ik_two_seeds kin q_seed (pose_task kin target opt) opt
