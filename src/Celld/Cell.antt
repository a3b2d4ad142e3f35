-- ===== src/Celld/Cell.antt =====
-- celld/cell.hpp: the nodes of a cell, their lifecycle, and the runs across all of them.
use robonode.Prelude.{
  ℕ, Bool, true, false, ◌||◌, if◌then◌else◌, ◌==◌, List, [], ◌∷◌, ◌++◌, length, Text, text_eq,
}
use robonode.Core.Double.{Double, nought}
use robonode.Core.Result.{Result, ok, err, ◌>>◌, guard, Status, success}
use robonode.Motion.Limits.{AxisLimits}
use robonode.Motion.Governor.{Governor}
use robonode.Motion.Blend.{BlendError}
use robonode.Celld.Driver.{Lifecycle, active, Descriptor, DriverContext, Drivers}

pub record Node {ℓ μ} (W : Type ℓ) (A : Type μ) : Type (ℓ ⊔ μ) where
  pub id : Text
  pub descriptor : Descriptor W
  pub adapter : A
  pub governor : Governor W

-- The nodes of a `Cell`, and the state behind its drivers.
pub record Cell {ℓ κ μ} (W : Type ℓ) (S : Type κ) (A : Type μ) : Type (ℓ ⊔ κ ⊔ μ) where
  pub world : S
  pub nodes : List (Node W A)

pub data Verb : Type 0 where
  configures activates deactivates : Verb

pub data CellError : Type 0 where
  node_error : Text → Text → CellError
  verb_error : Text → Verb → Text → CellError
  message : Text → CellError
  no_node not_active : Text → CellError
  waypoint_lists setpoint_sources controller_count : ℕ → ℕ → CellError
  not_planned : BlendError → CellError
  adapters_governors_mismatch : CellError

unfoldable pub is_active : Lifecycle → Bool
is_active active = true
is_active _ = false

module _ {ℓ κ μ} {W : Type ℓ} {S : Type κ} {A : Type μ} ⦃d : Double W⦄ (io : Drivers W S A) where
  open io use {configure, activate, deactivate, lifecycle, read, write_setpoint, step_all}

  unfoldable pub context_of : Descriptor W → DriverContext W
  context_of desc = record { id = desc.id; limits = desc.limits; config = desc.config }

  -- A governor as its constructor makes it.
  unfoldable pub new_governor : AxisLimits W → Governor W
  new_governor limits = record {
    limits = limits;
    prev = nought;
    position_clamps = 0;
    velocity_clamps = 0;
    rejected_setpoints = 0;
  }

  unfoldable pub add_made :
      Descriptor W → S × Result Text A → List (Node W A) → Cell W S A × Status CellError
  unfolding new_governor
  add_made desc (world, err why) nodes =
      (record { world = world; nodes = nodes }, err (node_error desc.id why))
  add_made desc (world, ok a) nodes =
      let node : Node W A = record {
        id = desc.id;
        descriptor = desc;
        adapter = a;
        governor = new_governor desc.limits;
      } in
      (record { world = world; nodes = nodes ++ node ∷ [] }, success)

  unfoldable pub add_node : Descriptor W → Cell W S A → Cell W S A × Status CellError
  unfolding add_made context_of
  add_node desc c = add_made desc (Drivers.make io desc.driver (context_of desc) c.world) c.nodes

  -- The body of the loop of `replace_node`, from the new adapter's `activate` backwards: what is left
  -- of the node, and the state behind the drivers.
  unfoldable pub replace_activated :
      Node W A → Descriptor W → A → S × Status Text → (S × Node W A) × Status CellError
  replace_activated n desc a (world, err why) = ((world, n), err (message why))
  replace_activated n desc a (world, ok _) =
      ((world, record n { adapter = a; descriptor = desc }), success)

  unfoldable pub replace_configured :
      Node W A → Descriptor W → A → S × Status Text → (S × Node W A) × Status CellError
  unfolding replace_activated
  replace_configured n desc a (world, err why) = ((world, n), err (message why))
  replace_configured n desc a (world, ok _) = replace_activated n desc a (activate a world)

  unfoldable pub replace_made :
      Node W A → Descriptor W → S × Result Text A → (S × Node W A) × Status CellError
  unfolding replace_configured
  replace_made n desc (world, err why) =
      (((activate n.adapter world).0, n), err (node_error n.id why))
  replace_made n desc (world, ok a) = replace_configured n desc a (configure a world)

  unfoldable pub replace_found : Text → Node W A → S → (S × Node W A) × Status CellError
  unfolding replace_made context_of
  replace_found new_driver n world =
      let desc = record (n.descriptor) { driver = new_driver } in
      replace_made n desc
        (Drivers.make io new_driver (context_of desc) (deactivate n.adapter world).0)

  -- The loop of `replace_node`.
  unfoldable pub replace_in :
      Text → Text → S → List (Node W A) → (S × List (Node W A)) × Status CellError
  unfolding replace_found text_eq
  replace_in id new_driver world [] = ((world, []), err (no_node id))
  replace_in id new_driver world (n ∷ ns) =
      let ((w, n'), st) = replace_found new_driver n world in
      let ((w', ns'), st') = replace_in id new_driver world ns in
      if text_eq n.id id then ((w, n' ∷ ns), st) else ((w', n ∷ ns'), st')

  unfoldable pub replace_node : Text → Text → Cell W S A → Cell W S A × Status CellError
  unfolding replace_in
  replace_node id new_driver c =
      let ((world, nodes), st) = replace_in id new_driver c.world c.nodes in
      (record { world = world; nodes = nodes }, st)

  unfoldable pub apply_verb : Verb → A → S → S × Status Text
  apply_verb configures a s = configure a s
  apply_verb activates a s = activate a s
  apply_verb deactivates a s = deactivate a s

  -- `for_each`: the first failure ends it, and says which node.
  unfoldable pub for_each : Verb → List (Node W A) → S → S × Status CellError
  unfolding apply_verb
  for_each verb [] s = (s, success)
  for_each verb (n ∷ ns) s =
      let (s', st) = apply_verb verb n.adapter s in
      let rest = for_each verb ns s' in
      elim st [ ok _ ↦ rest | err why ↦ (s', err (verb_error n.id verb why)) ]

  unfoldable pub all_nodes : Verb → Cell W S A → Cell W S A × Status CellError
  unfolding for_each
  all_nodes verb c = let (s, st) = for_each verb c.nodes c.world in (record c { world = s }, st)

  -- The loop of `gather`.
  unfoldable pub check_active : List (Node W A) → S → Status CellError
  unfolding is_active
  check_active [] s = success
  check_active (n ∷ ns) s =
      guard (is_active (lifecycle n.adapter s)) (not_active n.id) >> check_active ns s

  -- `gather`, less the lists of the members of the nodes that it fills.
  unfoldable pub gather : ℕ → Cell W S A → Status CellError
  unfolding check_active
  gather controllers c = do
    guard (controllers == 0 || controllers == length c.nodes)
        (controller_count controllers (length c.nodes))
    check_active c.nodes c.world
