-- ===== src/Motion/Cartesian/Jog.antt =====
-- The jog of the tool in motion/cartesian.hpp: a velocity of the tool, and the joint velocities for it.
use robonode.Prelude.{ℕ, ◌+◌, ◌*◌, ◌==◌, if◌then◌else◌, none, some, List, length, replicate}
use robonode.Core.Double.{Double, nought}
use robonode.Core.Geometry.{Vec3}
use robonode.Core.Result.{Status, success, err}
use robonode.Motion.Kinematics.{Kinematics}
use robonode.Motion.Cartesian.Solve.{solve3x3}
use robonode.Motion.Cartesian.Ik.{tabulate, sum_from}
use robonode.Motion.Waypoints.{at}

pub data JogError : Type 0 where
  jog_size jog_singular : JogError

module _ {ℓ} {W : Type ℓ} ⦃d : Double W⦄ where
  -- The entry of `A` in a row and a column.
  unfoldable pub jog_entry : ℕ → List W → W → ℕ → ℕ → W
  unfolding sum_from at
  jog_entry n js lambda r c =
      d.add (sum_from (λ k. d.mul (at js (r * n + k)) (at js (c * n + k))) n 0 nought)
        (if r == c then d.mul lambda lambda else nought)

  unfoldable pub jog_row : ℕ → List W → W → ℕ → Vec3 W
  unfolding jog_entry
  jog_row n js lambda r = record {
    x = jog_entry n js lambda r 0;
    y = jog_entry n js lambda r 1;
    z = jog_entry n js lambda r 2;
  }

  unfoldable pub jog_joint : ℕ → List W → Vec3 W → ℕ → W
  unfolding at
  jog_joint n js y k =
      d.add (d.add (d.mul (at js (0 * n + k)) y.x) (d.mul (at js (1 * n + k)) y.y))
        (d.mul (at js (2 * n + k)) y.z)

  -- The status, and `dq_out` with what it held before.
  unfoldable pub cartesian_jog_velocity :
      Kinematics W → List W → Vec3 W → W → List W → List W × Status JogError
  unfolding solve3x3 jog_row tabulate jog_joint
  cartesian_jog_velocity kin q v_cart lambda dq_out =
      let n = kin.dof in
      let js = kin.position_jacobian q in
      if length q == n
      then elim (solve3x3 (jog_row n js lambda 0) (jog_row n js lambda 1) (jog_row n js lambda 2)
          v_cart) [
            | none ↦ (replicate n nought, err jog_singular)
            | some y ↦ (tabulate (jog_joint n js y) n 0, success)
          ]
      else (dq_out, err jog_size)
