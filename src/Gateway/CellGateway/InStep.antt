-- ===== src/Gateway/CellGateway/InStep.antt =====
-- What the gateway of gateway/cell_gateway.hpp keeps beside its runtime stays in step with it.
use robonode.Prelude.{
  ◌≡◌, refl, sym, ◌∙◌, ap, Bool-cases, inl, inr, Option, none, some, List, [], ◌∷◌, Text, text_eq,
  ◌&&◌, not, is_empty,
}
use robonode.Core.Double.{Double}
use robonode.Core.Map.{find}
use robonode.Core.Result.{ok, err, Status}
use robonode.Motion.Kinematics.{Kinematics}
use robonode.Motion.ModuleRegistry.{Factory}
use robonode.Motion.Planner.{Planner}
use robonode.Motion.Planner.Registered.{PlannerContext}
use robonode.Celld.Driver.{Drivers}
use robonode.Celld.Cell.{Node, Cell, replace_node}
use robonode.Gateway.Capability.{made_into}
use robonode.Gateway.Runtime.{Runtime, RuntimeError, built, finish, bind_all, make_cell, build}
use robonode.Gateway.Runtime.Views.{
  joint_map, joint_bounds, with_cell, on_nodes, kept, as_runtime, swap_driver,
}
use robonode.Gateway.Control.{Trajectory, context_of, rebuild_trajectory}
use robonode.Gateway.CellGateway.{
  CellGateway, GatewayError, attached, attach_kinematics, taken_over, build_family, started,
  swapped, swap_node, invalidated, on_scene, scene_live, set_scene, swap_scene, Request, builds,
  swaps_node, swaps_scene, request, request_all,
}

module _ {ℓ κ μ} {W : Type ℓ} {S : Type κ} {A : Type μ} ⦃d : Double W⦄ where
  -- The robots and the nodes described are those of before.
  abbrev SameRobots : Runtime W S A → Runtime W S A → Type ℓ
  SameRobots rt rt' = (rt'.robots ≡ rt.robots) × (rt'.desc.nodes ≡ rt.desc.nodes)

  -- A build that fails leaves the robots.
  abbrev FailsSame : Runtime W S A → Runtime W S A × Status RuntimeError → Type ℓ
  FailsSame rt (rt', ok _) = Unit
  FailsSame rt (rt', err why) = SameRobots rt rt'

  built-FailsSame :
      (name : Text) (rt : Runtime W S A) (x : Cell W S A × Status RuntimeError)
      → FailsSame rt (built name rt x)
  unfolding built
  built-FailsSame name rt (c, err why) = (refl, refl)
  built-FailsSame name rt (c, ok _) = go (bind_all c.nodes rt.desc rt.carrier_weight rt.desc.robots)
    where
      go : (r : _) → FailsSame rt (finish name rt c r)
      go (err why) = (refl, refl)
      go (ok robots) = tt

  build-FailsSame :
      (show : W → Text) (io : Drivers W S A) (name : Text) (rt : Runtime W S A)
      → FailsSame rt (build show io name rt)
  unfolding build
  build-FailsSame show io name rt =
      built-FailsSame name rt (make_cell show io rt.world rt.desc name rt.physics)

  joint_map-same : (rt rt' : Runtime W S A) → SameRobots rt rt' → joint_map [] rt' ≡ joint_map [] rt
  unfolding joint_map
  joint_map-same rt rt' (r, n) = rw r refl

  joint_bounds-same :
      (rt rt' : Runtime W S A) → SameRobots rt rt' → joint_bounds [] rt' ≡ joint_bounds [] rt
  unfolding joint_bounds
  joint_bounds-same rt rt' (r, n) = rw (n, joint_map-same rt rt' (r, n)) refl

  on_nodes-SameRobots :
      {E : Type 0} (message : RuntimeError → E) (fn : Cell W S A → Cell W S A × Status E)
      (rt : Runtime W S A) (cell : Option (List (Node W A)))
      → SameRobots rt (on_nodes message fn rt cell).0
  unfolding on_nodes kept
  on_nodes-SameRobots message fn rt none = (refl, refl)
  on_nodes-SameRobots message fn rt (some nodes) = (refl, refl)

  swap_driver-SameRobots :
      (io : Drivers W S A) (node driver : Text) (rt : Runtime W S A)
      → SameRobots rt (swap_driver io node driver rt).0
  unfolding swap_driver with_cell
  swap_driver-SameRobots io node driver rt =
      on_nodes-SameRobots (λ why. why) (λ c. as_runtime (replace_node io node driver c)) rt rt.cell

module _ {ℓ} {W : Type ℓ} (factory : Factory (Planner W) (PlannerContext W)) where
  rebuilt-planner :
      (t : Trajectory W)
      → find t.version t.registry ≡ some factory
      → (rebuild_trajectory t).planner ≡ factory (context_of (rebuild_trajectory t))
  unfolding rebuild_trajectory context_of made_into
  rebuilt-planner t h = rw h refl

module _ {ℓ κ μ ν} {W : Type ℓ} {S : Type κ} {A : Type μ} {K : Type ν} ⦃d : Double W⦄
    (factory : Factory (Planner W) (PlannerContext W)) where
  -- The joints, and the bounds and weights of the planner, are those of the robots in force, and the
  -- planner in force is the one that the factory of its version makes of them and of the kinematics.
  pub record IsInStep (g : CellGateway W S A K) : Type ℓ where
    pub arm : g.arm ≡ joint_map [] g.runtime
    pub bounds : g.trajectory.bounds ≡ joint_bounds [] g.runtime
    pub weights : g.trajectory.weights ≡ (joint_map [] g.runtime).weights
    pub version : find g.trajectory.version g.trajectory.registry ≡ some factory
    pub planner : g.trajectory.planner ≡ factory (context_of g.trajectory)

  -- Nothing that is kept in step is touched.
  keep-IsInStep :
      (g g' : CellGateway W S A K)
      → SameRobots g.runtime g'.runtime
      → g'.arm ≡ g.arm
      → g'.trajectory ≡ g.trajectory
      → IsInStep g
      → IsInStep g'
  keep-IsInStep g g' same a t i = record {
    arm = a ∙ i.arm ∙ sym (joint_map-same g.runtime g'.runtime same);
    bounds = ap (λ t. t.bounds) t ∙ i.bounds ∙ sym (joint_bounds-same g.runtime g'.runtime same);
    weights =
        ap (λ t. t.weights) t
        ∙ i.weights
        ∙ ap (λ a. a.weights) (sym (joint_map-same g.runtime g'.runtime same));
    version = rw t i.version;
    planner = rw t i.planner;
  }

  module _ (show : W → Text) (say : RuntimeError → Text)
      (open_kinematics : Text → List Text → Text → Option (Kinematics W)) (io : Drivers W S A) where
    attached-IsInStep :
        (k : Option (Kinematics W)) (g : CellGateway W S A K) → IsInStep g → IsInStep (attached k g)
    unfolding attached
    attached-IsInStep none g i = i
    attached-IsInStep (some k) g i = record {
      arm = i.arm;
      bounds = i.bounds;
      weights = i.weights;
      version = i.version;
      planner = rebuilt-planner factory (record (g.trajectory) { kin = k }) i.version;
    }

    taken_over-IsInStep :
        (name : Text) (g : CellGateway W S A K) (x : Runtime W S A × Status RuntimeError)
        → FailsSame g.runtime x
        → IsInStep g
        → IsInStep (taken_over show say open_kinematics io name g x).0
    unfolding taken_over
    taken_over-IsInStep name g (rt, err why) same i = keep-IsInStep g _ same refl refl i
    taken_over-IsInStep name g (rt, ok _) same i = record {
      arm = refl;
      bounds = refl;
      weights = refl;
      version = i.version;
      planner =
          rebuilt-planner factory
            (record (g.trajectory) {
              bounds = joint_bounds [] rt;
              weights = (joint_map [] rt).weights;
            })
            i.version;
    }

    build_family-IsInStep :
        (name : Text) (g : CellGateway W S A K)
        → IsInStep g
        → IsInStep (build_family show say open_kinematics io name g).0
    unfolding build_family started
    build_family-IsInStep name g i =
        elim (Bool-cases (text_eq name g.family && not (is_empty g.arm.slots))) [
          | inl live ↦ rw live i
          | inr stale ↦ rw stale (
              taken_over-IsInStep name (started g) _ (build-FailsSame show io name g.runtime)
                (keep-IsInStep g _ (refl, refl) refl refl i))
        ]

    scene_live-IsInStep :
        (x : CellGateway W S A K × Status GatewayError)
        → IsInStep x.0
        → IsInStep (scene_live show say open_kinematics io x).0
    unfolding scene_live attach_kinematics
    scene_live-IsInStep (g, err why) i = i
    scene_live-IsInStep (g, ok _) i =
        keep-IsInStep _ _ (refl, refl) refl refl (attached-IsInStep _ g i)

    request-IsInStep :
        (q : Request) (g : CellGateway W S A K)
        → IsInStep g
        → IsInStep (request show say open_kinematics io q g)
    unfolding request swap_node swapped swap_scene on_scene set_scene invalidated
    request-IsInStep (builds name) g i = build_family-IsInStep name g i
    request-IsInStep (swaps_node node driver) g i =
        keep-IsInStep g _ (swap_driver-SameRobots io node driver g.runtime) refl refl i
    request-IsInStep (swaps_scene (err why) label) g i = i
    request-IsInStep (swaps_scene (ok composed) label) g i = scene_live-IsInStep _ (
        build_family-IsInStep g.family (on_scene composed label g)
          (keep-IsInStep g _ (refl, refl) refl refl i))

    -- Whatever cells are built, nodes exchanged and scenes loaded, and however each of these ends: the
    -- joints, and the bounds and weights of the planner, are those of the robots in force, and the
    -- planner in force is what the factory of its version makes of them and of the kinematics in
    -- force, if that was so at first.
    pub request_all-IsInStep :
        (qs : List Request) (g : CellGateway W S A K)
        → IsInStep g
        → IsInStep (request_all show say open_kinematics io qs g)
    unfolding request_all
    request_all-IsInStep [] g i = i
    request_all-IsInStep (q ∷ qs) g i =
        request_all-IsInStep qs (request show say open_kinematics io q g) (request-IsInStep q g i)
