-- ===== src/Motion/Kinematics.antt =====
-- motion/kinematics.hpp: the interface to the arm that a motion is solved against, with the vocabulary
-- of motion/cartesian.hpp and motion/planner.hpp. What the arm does is a parameter: an implementation
-- wraps a physics engine.
use robonode.Prelude.{ℕ, zero, suc, ◌*◌, Bool, false, List, [], ◌∷◌, ◌++◌, replicate}
use robonode.Core.Double.{Double, nought}
use robonode.Core.Geometry.{Vec3, Pose, identity}

-- The Jacobians are row-major: `jacobian` has six rows, `position_jacobian` the first three.
pub record Kinematics {ℓ} (W : Type ℓ) : Type ℓ where
  pub dof : ℕ
  pub tcp_position : List W → Vec3 W
  pub position_jacobian : List W → List W
  pub tcp_pose : List W → Pose W
  pub can_check_collision : Bool
  pub in_collision : List W → Bool
  pub jacobian : List W → List W

-- The travel of a joint.
pub record JointBound {ℓ} (W : Type ℓ) : Type ℓ where
  pub lo : W
  pub hi : W

-- A `Goal`, by its kind.
pub data Goal {ℓ} (W : Type ℓ) : Type ℓ where
  joint : List W → Goal W
  cartesian_position : Vec3 W → Vec3 W → Goal W
  cartesian_pose : Pose W → Goal W

-- The loop of the default `jacobian`: `n` entries of the position rows, the rest 0.
abbrev pub padded {ℓ} : {W : Type ℓ} → ⦃d : Double W⦄ → ℕ → List W → List W
padded zero js = []
padded (suc n) [] = nought ∷ padded n []
padded (suc n) (j ∷ js) = j ∷ padded n js

-- The defaults of the interface: an arm that knows its position only, and not what it touches.
unfoldable pub position_only {ℓ} :
    {W : Type ℓ} → ⦃d : Double W⦄ → ℕ → (List W → Vec3 W) → (List W → List W) → Kinematics W
unfolding identity
position_only n position jacobian = record {
  dof = n;
  tcp_position = position;
  position_jacobian = jacobian;
  tcp_pose = λ q. record { position = position q; orientation = identity };
  can_check_collision = false;
  in_collision = λ q. false;
  jacobian = λ q. padded (3 * n) (jacobian q) ++ replicate (3 * n) nought;
}
