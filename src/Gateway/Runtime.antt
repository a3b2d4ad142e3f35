-- ===== src/Gateway/Runtime.antt =====
-- gateway/cell_runtime.hpp: the live cell, the robots bound to it, and the driver family it was
-- built for. Reading the cell and its scene from files is left to the caller. `show` is
-- `std::to_string` of a double.
pub mod Build
pub mod Views
use robonode.Prelude.{
  ℕ, ◌+◌, Bool, true, false, not, ◌||◌, ◌&&◌, if◌then◌else◌, Option, none, some, List, [], ◌∷◌, map,
  get_elem?, ltb, Text, bytes, text_eq, is_empty,
}
use robonode.Core.Double.{Double, one}
use robonode.Core.Result.{Result, ok, err, ◌>>=◌, Status, success}
use robonode.Motion.Limits.{AxisLimits}
use robonode.Celld.Driver.{Descriptor, Drivers}
use robonode.Celld.Cell.{
  Node, Cell, Verb, configures, activates, CellError, add_node, all_nodes, replace_node,
}
use robonode.Celld.CellDescriptor.{CellNodeSpec, RobotSpec, CellDescriptor, FamilySpec, family}
use robonode.Celld.Robot.{RobotNode, RobotError, bind}

-- `world_`, `desc_`, `cell_`, `robots_`, `family_` and `carrier_weight_`, and the state behind the
-- drivers.
pub record Runtime {ℓ κ μ} (W : Type ℓ) (S : Type κ) (A : Type μ) : Type (ℓ ⊔ κ ⊔ μ) where
  pub world : Text
  pub desc : CellDescriptor W
  pub physics : S
  pub cell : Option (List (Node W A))
  pub robots : List (RobotNode W)
  pub family : Text
  pub carrier_weight : W

pub data RuntimeError : Type 0 where
  no_cell_built descriptor_has_no_nodes : RuntimeError
  no_robot unknown_family : Text → RuntimeError
  cell_error : CellError → RuntimeError
  robot_error : RobotError → RuntimeError

pub record NodeView {ℓ} (W : Type ℓ) : Type ℓ where
  pub id : Text
  pub driver : Text
  pub unit : Text
  pub joint : Text
  pub lo : W
  pub hi : W

pub record JointMap {ℓ} (W : Type ℓ) : Type ℓ where
  pub slots : List ℕ
  pub per_m : List W
  pub weights : List W
  pub chain_ids : List Text

-- What follows a call that can fail, with its message as one of the runtime's.
unfoldable pub followed_by {ℓ} :
    {E : Type 0} {B : Type ℓ}
    → (E → RuntimeError)
    → B × Status E
    → (B → B × Status RuntimeError)
    → B × Status RuntimeError
followed_by message (b, ok _) next = next b
followed_by message (b, err why) next = (b, err (message why))

-- `find_robot`
unfoldable pub find_robot {ℓ} : {W : Type ℓ} → Text → List (RobotNode W) → Option (RobotNode W)
unfolding text_eq
find_robot id [] = none
find_robot id (r ∷ rs) = if is_empty id || text_eq r.id id then some r else find_robot id rs

module _ {ℓ} {W : Type ℓ} ⦃d : Double W⦄ (show : W → Text) where
  -- The descriptor of a node, in the loop of `add_nodes`.
  unfoldable pub descriptor_of : Text → Text → CellNodeSpec W → Descriptor W
  descriptor_of world driver s = record {
    id = s.id;
    driver = driver;
    limits = s.limits;
    command_rate_hz = d.decimal 1000 0;
    simulated = false;
    config =
        (bytes "actuator", s.actuator)
        ∷ (bytes "joint", s.joint)
        ∷ (bytes "units_per_m", show s.units_per_m)
        ∷ (bytes "world", world)
        ∷ [];
  }

module _ {ℓ μ} {W : Type ℓ} {A : Type μ} ⦃d : Double W⦄ where
  -- The loop of `build` over the robots.
  unfoldable pub bind_all :
      List (Node W A)
      → CellDescriptor W
      → W
      → List RobotSpec
      → Result RobotError (List (RobotNode W))
  unfolding bind
  bind_all ns desc weight [] = ok []
  bind_all ns desc weight (spec ∷ specs) = do
    r ← bind spec ns desc weight
    rs ← bind_all ns desc weight specs
    ok (r ∷ rs)

module _ {ℓ κ μ} {W : Type ℓ} {S : Type κ} {A : Type μ} ⦃d : Double W⦄ where
  unfoldable pub finish :
      Text
      → Runtime W S A
      → Cell W S A
      → Result RobotError (List (RobotNode W))
      → Runtime W S A × Status RuntimeError
  finish name rt c (err why) = (record rt { physics = c.world }, err (robot_error why))
  finish name rt c (ok robots) = (
    record rt { physics = c.world; cell = some c.nodes; robots = robots; family = name },
    success,
  )

  unfoldable pub built :
      Text → Runtime W S A → Cell W S A × Status RuntimeError → Runtime W S A × Status RuntimeError
  unfolding finish bind_all
  built name rt (c, err why) = (record rt { physics = c.world }, err why)
  built name rt (c, ok _) =
      finish name rt c (bind_all c.nodes rt.desc rt.carrier_weight rt.desc.robots)

module _ {ℓ κ μ} {W : Type ℓ} {S : Type κ} {A : Type μ} ⦃d : Double W⦄ (show : W → Text) where
  module _ (io : Drivers W S A) where
    -- The loop of `add_nodes`.
    unfoldable pub add_specs :
        Text → Text → List (CellNodeSpec W) → Cell W S A → Cell W S A × Status RuntimeError
    unfolding followed_by descriptor_of add_node
    add_specs world driver [] c = (c, success)
    add_specs world driver (s ∷ ss) c =
        followed_by cell_error (add_node io (descriptor_of show world driver s) c)
          (add_specs world driver ss)

    unfoldable pub add_for :
        Text
        → Text
        → List (CellNodeSpec W)
        → Cell W S A
        → Option FamilySpec
        → Cell W S A × Status RuntimeError
    unfolding add_specs
    add_for world name specs c none = (c, err (unknown_family name))
    add_for world name specs c (some f) = add_specs world f.driver specs c

    unfoldable pub add_nodes :
        Text → CellDescriptor W → Text → Cell W S A → Cell W S A × Status RuntimeError
    unfolding add_for family
    add_nodes world desc name c =
        if is_empty desc.nodes
        then (c, err descriptor_has_no_nodes)
        else add_for world name desc.nodes c (family name desc.families)

    -- `build` up to the robots: the new cell, and whether it is.
    unfoldable pub make_cell : Text → CellDescriptor W → Text → S → Cell W S A × Status RuntimeError
    unfolding followed_by add_nodes all_nodes
    make_cell world desc name s =
        let empty : Cell W S A = record { world = s; nodes = [] } in
        followed_by (λ why. why) (add_nodes world desc name empty)
          (λ c.
            followed_by cell_error (all_nodes io configures c)
              (λ c'. followed_by cell_error (all_nodes io activates c') (λ c''. (c'', success))))

  unfoldable pub build : Drivers W S A → Text → Runtime W S A → Runtime W S A × Status RuntimeError
  unfolding built make_cell
  build io name rt = built name rt (make_cell io rt.world rt.desc name rt.physics)
