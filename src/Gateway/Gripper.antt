-- ===== src/Gateway/Gripper.antt =====
-- gateway/sim_gripper.hpp: what the tool carries, and the tool. `norm` is that of a `Vec3`, which
-- takes a square root; the constraint of the world that closes on the part is `hold`.
pub mod Holds
use robonode.Prelude.{Bool, true, false, if◌then◌else◌, Option, none, some}
use robonode.Core.Double.{Double}
use robonode.Core.Result.{Result, ok, err, Status, success}
use robonode.Core.Geometry.{Vec3}

pub record Workpiece {ℓ} (W : Type ℓ) : Type ℓ where
  pub reach : W
  pub tool : Option (Vec3 W)
  pub seen : Option (Vec3 W)
  pub held : Bool

pub data GripError : Type 0 where
  already_holding tool_pose_unknown nothing_to_grasp nothing_within_reach nothing_held : GripError
  not_moved : GripError

pub data Grip : Type 0 where
  opened closed : Grip

module _ {ℓ} {W : Type ℓ} where
  unfoldable pub track_tool : Vec3 W → Workpiece W → Workpiece W
  track_tool tcp p = record p { tool = some tcp }

  unfoldable pub observe : Option (Vec3 W) → Workpiece W → Workpiece W
  observe detected p = record p { seen = detected }

  unfoldable pub detach : Workpiece W → Workpiece W × Status GripError
  detach p = if p.held then (record p { held = false }, success) else (p, err nothing_held)

  unfoldable pub pose : Workpiece W → Option (Vec3 W)
  pose p = p.seen

module _ {ℓ} {W : Type ℓ} ⦃d : Double W⦄ (norm : Vec3 W → W) where
  -- `(*seen_ - *tool_).norm()`
  unfoldable pub apart : Vec3 W → Vec3 W → W
  apart a b = norm (record { x = d.sub a.x b.x; y = d.sub a.y b.y; z = d.sub a.z b.z })

  -- `attach`, once no part is held.
  unfoldable pub attach_to :
      Option (Vec3 W) → Option (Vec3 W) → Workpiece W → Workpiece W × Status GripError
  unfolding apart
  attach_to none seen p = (p, err tool_pose_unknown)
  attach_to (some tool) none p = (p, err nothing_to_grasp)
  attach_to (some tool) (some seen) p =
      if d.lt p.reach (apart seen tool)
      then (p, err nothing_within_reach)
      else (record p { held = true }, success)

  unfoldable pub attach : Workpiece W → Workpiece W × Status GripError
  unfolding attach_to
  attach p = if p.held then (p, err already_holding) else attach_to p.tool p.seen p

-- `SimGripper::hold_`, which may be empty, on the world `S`.
abbrev pub Hold {κ} : Type κ → Type κ
Hold S = Option (Grip → S → S × Status GripError)

module _ {κ} {S : Type κ} (hold : Hold S) where
  unfoldable pub close : Grip → S → S × Status GripError
  close grip s = elim hold [ none ↦ (s, success) | some f ↦ f grip s ]

module _ {ℓ κ} {W : Type ℓ} {S : Type κ} where
  -- `grasp`, from the closing of the tool on a part that is attached.
  unfoldable pub grasp_closed :
      Workpiece W → S × Status GripError → (Workpiece W × S) × Status GripError
  unfolding detach
  grasp_closed p (s, ok _) = ((p, s), success)
  grasp_closed p (s, err why) = (((detach p).0, s), err why)

module _ {ℓ κ} {W : Type ℓ} {S : Type κ} ⦃d : Double W⦄ (norm : Vec3 W → W) (hold : Hold S) where
  unfoldable pub grasp_attached :
      Workpiece W × Status GripError → S → (Workpiece W × S) × Status GripError
  unfolding grasp_closed close
  grasp_attached (p, err why) s = ((p, s), err why)
  grasp_attached (p, ok _) s = grasp_closed p (close hold closed s)

  unfoldable pub grasp : Workpiece W → S → (Workpiece W × S) × Status GripError
  unfolding grasp_attached attach
  grasp p s = grasp_attached (attach norm p) s

module _ {ℓ κ} {W : Type ℓ} {S : Type κ} (hold : Hold S) where
  unfoldable pub release_detached :
      Workpiece W × Status GripError → S → (Workpiece W × S) × Status GripError
  unfolding close
  release_detached (p, err why) s = ((p, s), err why)
  release_detached (p, ok _) s = let (s', st) = close hold opened s in ((p, s'), st)

  unfoldable pub release : Workpiece W → S → (Workpiece W × S) × Status GripError
  unfolding release_detached detach
  release p s = release_detached (detach p) s
