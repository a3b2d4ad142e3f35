-- ===== src/Celld/CellDescriptor.antt =====
-- celld/cell_descriptor.hpp: a cell as data, and which data is one. Reading it from JSON is left to
-- the caller.
pub mod Valid
use robonode.Prelude.{
  ℕ, ◌+◌, Bool, true, false, not, ◌||◌, ◌&&◌, if◌then◌else◌, ◌==◌, Option, none, some, List, [],
  ◌∷◌, length, is_empty, Text, text_eq,
}
use robonode.Core.Map.{Map}
use robonode.Core.Result.{Result, ok, err, ◌>>=◌, ◌>>◌, guard, Status, success}
use robonode.Motion.Limits.{AxisLimits}
use robonode.Program.Station.{StationSpec}

pub record CellNodeSpec {ℓ} (W : Type ℓ) : Type ℓ where
  pub id : Text
  pub joint : Text
  pub actuator : Text
  pub unit : Text
  pub units_per_m : W
  pub limits : AxisLimits W

pub record RobotSpec : Type 0 where
  pub id : Text
  pub carrier : List Text
  pub joints : List Text
  pub tcp_site : Text

pub record MotionSpec {ℓ} (W : Type ℓ) : Type ℓ where
  pub id : Text
  pub settle_s : W
  pub waypoints : Map (List W)

pub record FamilySpec : Type 0 where
  pub id : Text
  pub driver : Text

pub record CellDescriptor {ℓ} (W : Type ℓ) : Type ℓ where
  pub world : Text
  pub nodes : List (CellNodeSpec W)
  pub stations : List StationSpec
  pub robots : List RobotSpec
  pub motions : List (MotionSpec W)
  pub families : List FamilySpec

pub data DescriptorError : Type 0 where
  no_world no_nodes no_families : DescriptorError
  shared_id : Text → DescriptorError
  robot_axis_unknown motion_axis_unknown carrier_and_joint : Text → Text → DescriptorError
  no_joints : Text → DescriptorError
  waypoint_count : Text → Text → ℕ → ℕ → DescriptorError

-- `CellDescriptor::family`
unfoldable pub family : Text → List FamilySpec → Option FamilySpec
unfolding text_eq
family id [] = none
family id (f ∷ fs) = if text_eq f.id id then some f else family id fs

-- Membership, as `std::find` and `std::set::insert` test it.
unfoldable pub member : Text → List Text → Bool
unfolding text_eq
member id [] = false
member id (x ∷ xs) = text_eq x id || member id xs

-- The loop over the carrier of a robot.
unfoldable pub check_carrier : Text → List Text → List Text → Status DescriptorError
unfolding member
check_carrier owner joints [] = success
check_carrier owner joints (c ∷ cs) =
    guard (not (member c joints)) (carrier_and_joint owner c) >> check_carrier owner joints cs

module _ {ℓ} {W : Type ℓ} where
  unfoldable pub has_axis : Text → List (CellNodeSpec W) → Bool
  unfolding text_eq
  has_axis id [] = false
  has_axis id (n ∷ ns) = text_eq n.id id || has_axis id ns

  unfoldable pub check_axis_refs : List (CellNodeSpec W) → Text → List Text → Status DescriptorError
  unfolding has_axis
  check_axis_refs ns owner [] = success
  check_axis_refs ns owner (id ∷ ids) =
      guard (has_axis id ns) (robot_axis_unknown owner id) >> check_axis_refs ns owner ids

  -- The loop over the nodes, with the ids `seen` so far.
  unfoldable pub check_ids : List Text → List (CellNodeSpec W) → Status DescriptorError
  unfolding member
  check_ids seen [] = success
  check_ids seen (n ∷ ns) =
      guard (not (member n.id seen)) (shared_id n.id) >> check_ids (n.id ∷ seen) ns

  unfoldable pub check_robot : List (CellNodeSpec W) → RobotSpec → Status DescriptorError
  unfolding check_axis_refs check_carrier
  check_robot ns r = do
    check_axis_refs ns r.id r.carrier
    check_axis_refs ns r.id r.joints
    guard (not (is_empty r.joints)) (no_joints r.id)
    check_carrier r.id r.joints r.carrier

  unfoldable pub check_robots : List (CellNodeSpec W) → List RobotSpec → Status DescriptorError
  unfolding check_robot
  check_robots ns [] = success
  check_robots ns (r ∷ rs) = check_robot ns r >> check_robots ns rs

  -- The loop over the waypoints of a motion, with `steps` so far.
  unfoldable pub check_waypoints :
      List (CellNodeSpec W) → Text → ℕ → Map (List W) → Status DescriptorError
  unfolding has_axis
  check_waypoints ns motion steps [] = success
  check_waypoints ns motion steps ((axis, waypoints) ∷ rest) =
      let steps' = if steps == 0 then length waypoints else steps in
      guard (has_axis axis ns) (motion_axis_unknown motion axis)
      >> (guard (length waypoints == steps') (waypoint_count motion axis (length waypoints) steps')
          >> check_waypoints ns motion steps' rest)

  unfoldable pub check_motions :
      List (CellNodeSpec W) → List (MotionSpec W) → Status DescriptorError
  unfolding check_waypoints
  check_motions ns [] = success
  check_motions ns (m ∷ ms) = check_waypoints ns m.id 0 m.waypoints >> check_motions ns ms

  unfoldable pub validate : CellDescriptor W → Status DescriptorError
  unfolding check_ids check_robots check_motions
  validate desc = do
    guard (not (is_empty desc.world)) no_world
    guard (not (is_empty desc.nodes)) no_nodes
    guard (not (is_empty desc.families)) no_families
    check_ids [] desc.nodes
    check_robots desc.nodes desc.robots
    check_motions desc.nodes desc.motions
