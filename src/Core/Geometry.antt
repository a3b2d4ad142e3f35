-- ===== src/Core/Geometry.antt =====
-- core/geometry.hpp: points, orientations and poses of a tool. The functions of the standard library
-- that it takes (a root) and those that motion/cartesian.hpp and motion/planner.hpp take are a
-- parameter.
use robonode.Prelude.{if◌then◌else◌}
use robonode.Core.Double.{Double, nought, one}

-- `std::sqrt`, `std::atan2`, `std::acos` and `std::sin`
pub record Maths {ℓ} (W : Type ℓ) : Type ℓ where
  pub sqrt : W → W
  pub atan2 : W → W → W
  pub acos : W → W
  pub sin : W → W

pub record Vec3 {ℓ} (W : Type ℓ) : Type ℓ where
  pub x : W
  pub y : W
  pub z : W

pub record Quat {ℓ} (W : Type ℓ) : Type ℓ where
  pub w : W
  pub x : W
  pub y : W
  pub z : W

pub record Pose {ℓ} (W : Type ℓ) : Type ℓ where
  pub position : Vec3 W
  pub orientation : Quat W

module _ {ℓ} {W : Type ℓ} ⦃d : Double W⦄ where
  unfoldable pub minus : Vec3 W → Vec3 W → Vec3 W
  minus a b = record { x = d.sub a.x b.x; y = d.sub a.y b.y; z = d.sub a.z b.z }

  unfoldable pub plus : Vec3 W → Vec3 W → Vec3 W
  plus a b = record { x = d.add a.x b.x; y = d.add a.y b.y; z = d.add a.z b.z }

  unfoldable pub scaled : Vec3 W → W → Vec3 W
  scaled a s = record { x = d.mul a.x s; y = d.mul a.y s; z = d.mul a.z s }

  abbrev pub origin : Vec3 W
  origin = record { x = nought; y = nought; z = nought }

  -- `Quat::identity`
  unfoldable pub identity : Quat W
  identity = record { w = one; x = nought; y = nought; z = nought }

  module _ ⦃m : Maths W⦄ where
    -- `Vec3::norm`
    unfoldable pub norm : Vec3 W → W
    norm a = m.sqrt (d.add (d.add (d.mul a.x a.x) (d.mul a.y a.y)) (d.mul a.z a.z))

    -- `Quat::norm`
    unfoldable pub quat_norm : Quat W → W
    quat_norm q =
        m.sqrt
          (d.add (d.add (d.add (d.mul q.w q.w) (d.mul q.x q.x)) (d.mul q.y q.y)) (d.mul q.z q.z))

    unfoldable pub normalized : Quat W → Quat W
    unfolding quat_norm identity
    normalized q =
        let n = quat_norm q in
        if d.lt nought n
        then record { w = d.div q.w n; x = d.div q.x n; y = d.div q.y n; z = d.div q.z n }
        else identity
