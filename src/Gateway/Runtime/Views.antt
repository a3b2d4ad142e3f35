-- ===== src/Gateway/Runtime/Views.antt =====
-- What gateway/cell_runtime.hpp gives the other parts of its cell: calls with it, and what they may
-- read.
use robonode.Prelude.{ℕ, Option, none, some, List, [], ◌∷◌, map, get_elem?, Text}
use robonode.Core.Double.{Double}
use robonode.Core.Result.{ok, err, Status}
use robonode.Motion.Limits.{AxisLimits}
use robonode.Motion.Kinematics.{JointBound}
use robonode.Celld.Driver.{Drivers}
use robonode.Celld.Cell.{Node, Cell, CellError, replace_node}
use robonode.Celld.CellDescriptor.{CellNodeSpec}
use robonode.Celld.Robot.{RobotNode}
use robonode.Gateway.Runtime.{
  Runtime, RuntimeError, no_cell_built, no_robot, cell_error, NodeView, JointMap, find_robot,
}

module _ {ℓ μ} {W : Type ℓ} {A : Type μ} where
  -- The loop of `node_views`.
  unfoldable pub views : List (Node W A) → List (CellNodeSpec W) → List (NodeView W)
  views [] ss = []
  views (n ∷ ns) [] = []
  views (n ∷ ns) (s ∷ ss) =
      record {
        id = n.id;
        driver = n.descriptor.driver;
        unit = s.unit;
        joint = s.joint;
        lo = s.limits.position_min;
        hi = s.limits.position_max;
      }
      ∷ views ns ss

module _ {ℓ κ μ} {W : Type ℓ} {S : Type κ} {A : Type μ} where
  unfoldable pub kept :
      {E : Type 0} → Runtime W S A → Cell W S A × Status E → Runtime W S A × Status E
  kept rt (c, st) = (record rt { physics = c.world; cell = some c.nodes }, st)

  unfoldable pub on_nodes :
      {E : Type 0}
      → (RuntimeError → E)
      → (Cell W S A → Cell W S A × Status E)
      → Runtime W S A
      → Option (List (Node W A))
      → Runtime W S A × Status E
  unfolding kept
  on_nodes message fn rt none = (rt, err (message no_cell_built))
  on_nodes message fn rt (some nodes) = kept rt (fn (record { world = rt.physics; nodes = nodes }))

  -- `with_cell`, for a client whose messages are of a type `E`.
  unfoldable pub with_cell :
      {E : Type 0}
      → (RuntimeError → E)
      → (Cell W S A → Cell W S A × Status E)
      → Runtime W S A
      → Runtime W S A × Status E
  unfolding on_nodes
  with_cell message fn rt = on_nodes message fn rt rt.cell

  unfoldable pub with_found :
      {E : Type 0}
      → (RuntimeError → E)
      → (Cell W S A → RobotNode W → Cell W S A × Status E)
      → Text
      → Option (RobotNode W)
      → Cell W S A
      → Cell W S A × Status E
  with_found message fn id none c = (c, err (message (no_robot id)))
  with_found message fn id (some r) c = fn c r

  unfoldable pub with_robot :
      {E : Type 0}
      → (RuntimeError → E)
      → Text
      → (Cell W S A → RobotNode W → Cell W S A × Status E)
      → Runtime W S A
      → Runtime W S A × Status E
  unfolding with_cell with_found find_robot
  with_robot message id fn rt =
      with_cell message (with_found message fn id (find_robot id rt.robots)) rt

  unfoldable pub families : Runtime W S A → List Text
  families rt = map (λ f. f.id) rt.desc.families

  unfoldable pub limits : Runtime W S A → List (AxisLimits W)
  limits rt = map (λ (n : CellNodeSpec W). n.limits) rt.desc.nodes

  unfoldable pub axis_units : Runtime W S A → List Text
  axis_units rt = map (λ (n : CellNodeSpec W). n.unit) rt.desc.nodes

  unfoldable pub axis_ids : Runtime W S A → List Text
  axis_ids rt = map (λ (n : CellNodeSpec W). n.id) rt.desc.nodes

  unfoldable pub joint_map : Text → Runtime W S A → JointMap W
  unfolding find_robot
  joint_map id rt = elim (find_robot id rt.robots) [
    | none ↦ record { slots = []; per_m = []; weights = []; chain_ids = [] }
    | some r ↦ record {
      slots = r.joints;
      per_m = r.per_m;
      weights = r.weights;
      chain_ids = r.chain_ids;
    }
  ]

  unfoldable pub joint_slots : Text → Runtime W S A → List ℕ
  unfolding find_robot
  joint_slots id rt = elim (find_robot id rt.robots) [ none ↦ [] | some r ↦ r.joints ]

  unfoldable pub node_views : Runtime W S A → List (NodeView W)
  unfolding views
  node_views rt = elim (rt.cell) [ none ↦ [] | some ns ↦ views ns rt.desc.nodes ]

  unfoldable pub positions : Drivers W S A → Runtime W S A → List W
  positions io rt = elim (rt.cell) [
    | none ↦ []
    | some ns ↦ map (λ (n : Node W A). (Drivers.read io n.adapter rt.physics).position) ns
  ]

  unfoldable pub as_runtime : Cell W S A × Status CellError → Cell W S A × Status RuntimeError
  as_runtime (c, ok _) = (c, ok tt)
  as_runtime (c, err why) = (c, err (cell_error why))

-- The loop of `joint_bounds`; a slot beyond the descriptor is passed over.
unfoldable pub bounds_at {ℓ} :
    {W : Type ℓ} → ⦃d : Double W⦄ → List (CellNodeSpec W) → List ℕ → List W → List (JointBound W)
bounds_at ns [] us = []
bounds_at ns (i ∷ is) [] = []
bounds_at ⦃d = d⦄ ns (i ∷ is) (u ∷ us) =
    let rest = bounds_at ns is us in
    elim (get_elem? ns i) [
      | none ↦ rest
      | some n ↦
          record { lo = d.div n.limits.position_min u; hi = d.div n.limits.position_max u } ∷ rest
    ]

module _ {ℓ κ μ} {W : Type ℓ} {S : Type κ} {A : Type μ} ⦃d : Double W⦄ where
  unfoldable pub joint_bounds : Text → Runtime W S A → List (JointBound W)
  unfolding bounds_at joint_map
  joint_bounds id rt = let map' = joint_map id rt in bounds_at rt.desc.nodes map'.slots map'.per_m

  unfoldable pub swap_driver :
      Drivers W S A → Text → Text → Runtime W S A → Runtime W S A × Status RuntimeError
  unfolding with_cell as_runtime replace_node
  swap_driver io node driver rt =
      with_cell (λ why. why) (λ c. as_runtime (replace_node io node driver c)) rt
