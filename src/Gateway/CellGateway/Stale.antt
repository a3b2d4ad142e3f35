-- ===== src/Gateway/CellGateway/Stale.antt =====
-- Where gateway/cell_gateway.hpp takes a cell for live that is not the one asked for.
use robonode.Prelude.{
  ◌≡◌, refl, ◌∙◌, ap, Bool, true, false, if◌then◌else◌, Option, none, some, List, [], Text, text_eq,
  text_eq_iff, ◌&&◌, not, is_empty, arith,
}
use robonode.Core.Double.{Double}
use robonode.Core.Result.{ok, err, success, Status}
use robonode.Motion.Kinematics.{Kinematics}
use robonode.Celld.Driver.{Drivers}
use robonode.Celld.Cell.{Node, Cell, CellError, replace_node}
use robonode.Celld.Replace.Driven.{driver_of, replace_node-driver_of}
use robonode.Gateway.Runtime.{Runtime, RuntimeError, build}
use robonode.Gateway.Runtime.Views.{with_cell, on_nodes, kept, as_runtime, swap_driver}
use robonode.Gateway.CellGateway.{
  CellGateway, GatewayError, attached, attach_kinematics, taken_over, build_family, started,
  swapped, swap_node, invalidated, on_scene, scene_live, set_scene, swap_scene,
}

-- The driver of a node of the cell, if there is a cell.
unfoldable pub runs {ℓ κ μ} :
    {W : Type ℓ} {S : Type κ} {A : Type μ} → Text → Runtime W S A → Option Text
unfolding driver_of
runs id rt = elim (rt.cell) [ none ↦ none | some ns ↦ driver_of id ns ]

module _ {ℓ κ μ ν} {W : Type ℓ} {S : Type κ} {A : Type μ} {K : Type ν} where
  attached-runtime :
      (k : Option (Kinematics W)) (g : CellGateway W S A K)
      → ((attached k g).runtime ≡ g.runtime) × ((attached k g).supervisor ≡ g.supervisor)
  unfolding attached
  attached-runtime none g = (refl, refl)
  attached-runtime (some k) g = (refl, refl)

module _ {ℓ κ μ} {W : Type ℓ} {S : Type κ} {A : Type μ} ⦃d : Double W⦄ where
  on_nodes-runs :
      (io : Drivers W S A) (node driver : Text) (rt : Runtime W S A)
      (cell : Option (List (Node W A)))
      → let x = on_nodes (λ why. why) (λ c. as_runtime (replace_node io node driver c)) rt cell in
        x.1 ≡ success → runs node x.0 ≡ some driver
  unfolding on_nodes runs kept as_runtime
  on_nodes-runs io node driver rt none e = absurd (ground arith)
  on_nodes-runs io node driver rt (some ns) e =
      go (replace_node io node driver (record { world = rt.physics; nodes = ns }))
        (replace_node-driver_of io driver node (record { world = rt.physics; nodes = ns })) e
    where
      go :
          (x : Cell W S A × Status CellError)
          → (x.1 ≡ success → driver_of node x.0.nodes ≡ some driver)
          → (kept rt (as_runtime x)).1 ≡ success
          → runs node (kept rt (as_runtime x)).0 ≡ some driver
      go (c, ok _) h e = h refl
      go (c, err why) h e = absurd (ground arith)

module _ {ℓ κ μ ν} {W : Type ℓ} {S : Type κ} {A : Type μ} {K : Type ν} ⦃d : Double W⦄
    (show : W → Text) (say : RuntimeError → Text)
    (open_kinematics : Text → List Text → Text → Option (Kinematics W)) (io : Drivers W S A) where
  build_live :
      (name : Text) (g : CellGateway W S A K)
      → name ≡ g.family
      → is_empty g.arm.slots ≡ false
      → build_family show say open_kinematics io name g ≡ (g, success)
  unfolding build_family
  build_live name g e s = rw (live, s) refl
    where
      live : text_eq name g.family ≡ true
      live = (text_eq_iff name g.family).1 e

  taken_over-err :
      (name : Text) (g : CellGateway W S A K) (x : Runtime W S A × Status RuntimeError)
      (why : GatewayError)
      → (taken_over show say open_kinematics io name g x).1 ≡ err why
      → let g' = (taken_over show say open_kinematics io name g x).0 in
        (g'.family ≡ g.family) × (g'.arm ≡ g.arm)
  unfolding taken_over
  taken_over-err name g (rt, ok _) why e = absurd (ground arith)
  taken_over-err name g (rt, err cause) why e = (refl, refl)

  build_family-err :
      (name : Text) (g : CellGateway W S A K) (why : GatewayError)
      → (build_family show say open_kinematics io name g).1 ≡ err why
      → let g' = (build_family show say open_kinematics io name g).0 in
        (g'.family ≡ g.family) × (g'.arm ≡ g.arm)
  unfolding build_family started
  build_family-err name g why e = go (text_eq name g.family && not (is_empty g.arm.slots)) e
    where
      rest : CellGateway W S A K × Status GatewayError
      rest = taken_over show say open_kinematics io name (started g) (build show io name g.runtime)

      go :
          (live : Bool)
          → (if live then (g, success) else rest).1 ≡ err why
          → let g' = (if live then (g, success) else rest).0 in
            (g'.family ≡ g.family) × (g'.arm ≡ g.arm)
      go true e = (refl, refl)
      go false e = taken_over-err name (started g) (build show io name g.runtime) why e

  scene_live-err :
      (x : CellGateway W S A K × Status GatewayError) (why : GatewayError)
      → (scene_live show say open_kinematics io x).1 ≡ err why
      → (x.1 ≡ err why) × ((scene_live show say open_kinematics io x).0 ≡ x.0)
  unfolding scene_live
  scene_live-err (g, ok _) why e = absurd (ground arith)
  scene_live-err (g, err cause) why e = (e, refl)

  scene_live-ok :
      (g : CellGateway W S A K)
      → let (g', st) = scene_live show say open_kinematics io (g, success) in
        (st ≡ success) × (g'.runtime ≡ g.runtime) × (g'.supervisor ≡ g.supervisor)
  unfolding scene_live attach_kinematics
  scene_live-ok g = let (r, s) = attached-runtime (open_kinematics _ _ _) g in (refl, r, s)

  swap_scene-err :
      (composed label : Text) (g : CellGateway W S A K) (why : GatewayError)
      → (swap_scene show say open_kinematics io (ok composed) label g).1 ≡ err why
      → let g' = (swap_scene show say open_kinematics io (ok composed) label g).0 in
        (g'.family ≡ []) × (g'.arm ≡ g.arm)
  unfolding swap_scene on_scene invalidated
  swap_scene-err composed label g why e =
      let (failed, same) =
        scene_live-err
          (build_family show say open_kinematics io g.family (on_scene composed label g)) why e in
      let (f, a) = build_family-err g.family (on_scene composed label g) why failed in
      rw same (f, a)

  unbuilt :
      (second label : Text) (g : CellGateway W S A K)
      → g.family ≡ []
      → is_empty g.arm.slots ≡ false
      → let (g', st) = swap_scene show say open_kinematics io (ok second) label g in
        (st ≡ success)
        × (g'.runtime ≡ set_scene second label g.runtime)
        × (g'.supervisor ≡ g.supervisor)
  unfolding swap_scene on_scene invalidated
  unbuilt second label g f s =
      rw (build_live g.family (on_scene second label g) f s)
        (scene_live-ok (on_scene second label g))

  -- A failed build of a new scene leaves no family as the live one; so the next scene that is loaded,
  -- on a cell with a robot, finds that very family live. It succeeds, but nothing is built: the cell
  -- is the one of before, whatever the scene, and only the world and its label are the new ones.
  pub swap_scene-unbuilt :
      (first second label label' : Text) (g : CellGateway W S A K) (why : GatewayError)
      → (swap_scene show say open_kinematics io (ok first) label g).1 ≡ err why
      → is_empty g.arm.slots ≡ false
      → let g' = (swap_scene show say open_kinematics io (ok first) label g).0 in
        let (g'', st) = swap_scene show say open_kinematics io (ok second) label' g' in
        (st ≡ success)
        × (g''.runtime ≡ set_scene second label' g'.runtime)
        × (g''.supervisor ≡ g'.supervisor)
  swap_scene-unbuilt first second label label' g why e s =
      let (f, a) = swap_scene-err first label g why e in
      unbuilt second label' (swap_scene show say open_kinematics io (ok first) label g).0 f
        (ap (λ arm. is_empty arm.slots) a ∙ s)

  -- After the driver of a node was exchanged, the family that is live is not built again, on a cell
  -- with a robot: a command for it succeeds and changes nothing, and the node keeps the driver that it
  -- was given, whatever the family's is.
  pub swap_node-unbuilt :
      (node driver : Text) (g : CellGateway W S A K)
      → (swap_node show say open_kinematics io node driver g).1 ≡ success
      → is_empty g.arm.slots ≡ false
      → let g' = (swap_node show say open_kinematics io node driver g).0 in
        (build_family show say open_kinematics io g.family g' ≡ (g', success))
        × (runs node g'.runtime ≡ some driver)
  unfolding swap_node swapped swap_driver with_cell
  swap_node-unbuilt node driver g e s =
      (build_live g.family _ refl s, on_nodes-runs io node driver g.runtime g.runtime.cell e)
