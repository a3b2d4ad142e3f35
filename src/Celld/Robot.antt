-- ===== src/Celld/Robot.antt =====
-- celld/robot_node.hpp: a robot as a node of a cell, its axes bound by name.
pub mod Bound
pub mod Composed
use robonode.Prelude.{
  ℕ, zero, suc, ◌+◌, Bool, true, false, not, if◌then◌else◌, ◌==◌, ltb, Option, none, some, List, [],
  ◌∷◌, ◌++◌, length, map, get_elem?, replicate, is_empty, Text, text_eq,
}
use robonode.Core.Double.{Double, nought, one}
use robonode.Core.Result.{Result, ok, err, ◌>>=◌, ◌>>◌, guard, Status, success}
use robonode.Celld.Driver.{Drivers}
use robonode.Celld.Cell.{Node, Cell}
use robonode.Celld.Run.{read_at, adapters_of}
use robonode.Celld.CellDescriptor.{CellNodeSpec, RobotSpec, CellDescriptor}

pub record RobotNode {ℓ} (W : Type ℓ) : Type ℓ where
  pub id : Text
  pub tcp_site : Text
  pub joints : List ℕ
  pub per_m : List W
  pub weights : List W
  pub chain_ids : List Text

pub data RobotError : Type 0 where
  no_joints dof_mismatch empty_trajectory ragged : Text → RobotError
  no_axis : Text → Text → RobotError

-- `index_of`, from the index `i` on; `kNone` is `none`.
unfoldable pub index_of {ℓ μ} : {W : Type ℓ} {A : Type μ} → Text → ℕ → List (Node W A) → Option ℕ
unfolding text_eq
index_of id i [] = none
index_of id i (n ∷ ns) = if text_eq n.id id then some i else index_of id (i + 1) ns

unfoldable pub found {ℓ} : {A : Type ℓ} → RobotError → Option A → Result RobotError A
found e none = err e
found e (some a) = ok a

unfoldable pub resolve {ℓ μ} :
    {W : Type ℓ} {A : Type μ} → Text → List (Node W A) → List Text → Result RobotError (List ℕ)
unfolding index_of found
resolve owner ns [] = ok []
resolve owner ns (id ∷ ids) = do
  i ← found (no_axis owner id) (index_of id 0 ns)
  slots ← resolve owner ns ids
  ok (i ∷ slots)

-- `cell_waypoints[i] = x`
unfoldable pub set_at {ℓ} : {A : Type ℓ} → ℕ → A → List A → List A
set_at i x [] = []
set_at zero x (y ∷ ys) = x ∷ ys
set_at (suc i) x (y ∷ ys) = y ∷ set_at i x ys

abbrev pub steps_of {ℓ} : {W : Type ℓ} → List (List W) → ℕ
steps_of [] = 0
steps_of (w ∷ ws) = length w

module _ {ℓ} {W : Type ℓ} ⦃d : Double W⦄ where
  unfoldable pub scale_of : Text → List (CellNodeSpec W) → W
  unfolding text_eq
  scale_of id [] = one
  scale_of id (n ∷ ns) =
      if text_eq n.id id
      then (if d.eq n.units_per_m nought then one else n.units_per_m)
      else scale_of id ns

  -- The weights of a chain of `n` axes, the first `carrier` of which carry the arm.
  unfoldable pub weights_of : W → ℕ → ℕ → List W
  weights_of carrier_weight carrier n =
      map (λ k. if ltb k carrier then carrier_weight else one) (indices 0 n)
    where
      indices : ℕ → ℕ → List ℕ
      indices k zero = []
      indices k (suc m) = k ∷ indices (k + 1) m

  unfoldable pub bind {μ} :
      {A : Type μ}
      → RobotSpec
      → List (Node W A)
      → CellDescriptor W
      → W
      → Result RobotError (RobotNode W)
  unfolding resolve scale_of weights_of
  bind spec ns desc carrier_weight = do
    guard (not (is_empty spec.joints)) (no_joints spec.id)
    slots ← resolve spec.id ns (spec.carrier ++ spec.joints)
    ok (record {
      id = spec.id;
      tcp_site = spec.tcp_site;
      joints = slots;
      per_m = map (λ id. scale_of id desc.nodes) (spec.carrier ++ spec.joints);
      weights =
          weights_of carrier_weight (length spec.carrier) (length (spec.carrier ++ spec.joints));
      chain_ids = spec.carrier ++ spec.joints;
    })

  module _ {κ μ} {S : Type κ} {A : Type μ} (io : Drivers W S A) where
    -- The loop of `joint_positions`; an index is one of a node.
    unfoldable pub positions_at : List ℕ → List W → List A → S → List W
    unfolding read_at
    positions_at [] per_m as' s = []
    positions_at (i ∷ is) [] as' s = []
    positions_at (i ∷ is) (u ∷ us) as' s =
        d.div (read_at io (get_elem? as' i) s).position u ∷ positions_at is us as' s

    unfoldable pub joint_positions : RobotNode W → Cell W S A → List W
    unfolding positions_at
    joint_positions r c = positions_at r.joints r.per_m (adapters_of io c.nodes) c.world

    unfoldable pub hold_all : ℕ → List (Node W A) → S → List (List W)
    hold_all steps [] s = []
    hold_all steps (n ∷ ns) s =
        replicate steps (Drivers.read io n.adapter s).position ∷ hold_all steps ns s

    -- The loop of `compose` over the joints.
    unfoldable pub compose_joints :
        Text
        → ℕ
        → List ℕ
        → List W
        → List (List W)
        → List (List W)
        → Result RobotError (List (List W))
    unfolding set_at
    compose_joints id steps [] us ws out = ok out
    compose_joints id steps (i ∷ is) [] ws out = ok out
    compose_joints id steps (i ∷ is) (u ∷ us) [] out = ok out
    compose_joints id steps (i ∷ is) (u ∷ us) (w ∷ ws) out =
        guard (length w == steps) (ragged id)
        >> compose_joints id steps is us ws (set_at i (map (λ q. d.mul q u) w) out)

    unfoldable pub compose :
        RobotNode W → Cell W S A → List (List W) → Result RobotError (List (List W))
    unfolding hold_all compose_joints
    compose r c waypoints = do
      guard (length waypoints == length r.joints) (dof_mismatch r.id)
      guard (not (steps_of waypoints == 0)) (empty_trajectory r.id)
      compose_joints r.id (steps_of waypoints) r.joints r.per_m waypoints
          (hold_all (steps_of waypoints) c.nodes c.world)
