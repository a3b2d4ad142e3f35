-- ===== src/Gateway/Runtime/Build.antt =====
-- How `build` of gateway/cell_runtime.hpp ends.
use robonode.Prelude.{
  ◌≡◌, refl, sym, Bool, true, false, not, Option, none, some, List, [], ◌∷◌, ◌++◌, append_assoc,
  append-nil, All, Text, is_empty, arith,
}
use mathlib.Core.Path.{subst}
use robonode.Core.Double.{Double}
use robonode.Core.Result.{Result, ok, err, Status, success}
use robonode.Celld.Driver.{Drivers}
use robonode.Celld.Cell.{Node, Cell, configures, activates, add_node, add_made, all_nodes}
use robonode.Celld.CellDescriptor.{
  CellNodeSpec, RobotSpec, CellDescriptor, FamilySpec, family, validate,
}
use robonode.Celld.CellDescriptor.Valid.{validate-HasNodes}
use robonode.Celld.Robot.{RobotNode}
use robonode.Celld.Robot.Bound.{IsNamed, IsBound, Names, ids_of, validate-IsBound}
use robonode.Gateway.Runtime.{
  Runtime, RuntimeError, unknown_family, cell_error, followed_by, descriptor_of, add_specs, add_for,
  add_nodes, make_cell, bind_all, finish, built, build,
}

empty_false : (b : Bool) → not b ≡ true → b ≡ false
empty_false b h = ground arith

-- The causes for which a cell of valid data is not built: its family is unknown, or a driver
-- refuses.
abbrev pub IsCause : RuntimeError → Type 0
IsCause (unknown_family name) = Unit
IsCause (cell_error why) = Unit
IsCause _ = ⊥

-- `P` holds of what is left, if the status is a success; else there is a cause.
abbrev Ends {ℓ} : {B : Type ℓ} → (B → Type 0) → B × Status RuntimeError → Type 0
Ends P (b, ok _) = P b
Ends P (b, err why) = IsCause why

module _ {ℓ μ} {W : Type ℓ} {A : Type μ} where
  IsNamed-snoc :
      (ns : List (Node W A)) (ss : List (CellNodeSpec W)) (n : Node W A) (s : CellNodeSpec W)
      → IsNamed ns ss
      → n.id ≡ s.id
      → IsNamed (ns ++ n ∷ []) (ss ++ s ∷ [])
  IsNamed-snoc [] [] n s h e = (e, tt)
  IsNamed-snoc [] (t ∷ ss) n s h e = elim h [ ]
  IsNamed-snoc (m ∷ ns) [] n s h e = elim h [ ]
  IsNamed-snoc (m ∷ ns) (t ∷ ss) n s (g, h) e = (g, IsNamed-snoc ns ss n s h e)

module _ {ℓ κ μ} {W : Type ℓ} {S : Type κ} {A : Type μ} ⦃d : Double W⦄ (show : W → Text)
    (io : Drivers W S A) (desc : CellDescriptor W) where
  -- The nodes so far are those of the specs so far.
  abbrev Has : List (CellNodeSpec W) → Cell W S A → Type 0
  Has ss c = IsNamed c.nodes ss

  followed_by-Ends :
      {E : Type 0} (P Q : Cell W S A → Type 0) (message : E → RuntimeError)
      (x : Cell W S A × Status E) (next : Cell W S A → Cell W S A × Status RuntimeError)
      → ((why : E) → IsCause (message why))
      → P x.0
      → ((c : Cell W S A) → P c → Ends Q (next c))
      → Ends Q (followed_by message x next)
  unfolding followed_by
  followed_by-Ends P Q message (c, ok _) next f h k = k c h
  followed_by-Ends P Q message (c, err why) next f h k = f why

  added-Ends :
      (s : CellNodeSpec W) (ss done : List (CellNodeSpec W)) (world driver : Text)
      (ns : List (Node W A)) (x : S × Result Text A)
      → IsNamed ns done
      → ((c : Cell W S A)
          → Has (done ++ s ∷ []) c
          → Ends (Has (done ++ s ∷ ss)) (add_specs show io world driver ss c))
      → Ends (Has (done ++ s ∷ ss)) (
          followed_by cell_error
            (add_made io (descriptor_of show world driver s) x ns)
            (add_specs show io world driver ss))
  unfolding followed_by add_made descriptor_of
  added-Ends s ss done world driver ns (s', err why) h k = tt
  added-Ends s ss done world driver ns (s', ok a) h k = k _ (IsNamed-snoc ns done _ s h refl)

  add_specs-Ends :
      (world driver : Text) (ss done : List (CellNodeSpec W)) (c : Cell W S A)
      → Has done c
      → Ends (Has (done ++ ss)) (add_specs show io world driver ss c)
  unfolding add_specs add_node
  add_specs-Ends world driver [] done c h = subst (λ l. Has l c) (sym (append-nil done)) h
  add_specs-Ends world driver (s ∷ ss) done c h =
      added-Ends s ss done world driver c.nodes _ h (λ c' h'.
        subst (λ l. Ends (Has l) (add_specs show io world driver ss c'))
          (append_assoc done (s ∷ []) ss) (add_specs-Ends world driver ss (done ++ s ∷ []) c' h'))

  add_for-Ends :
      (world name : Text) (c : Cell W S A) (f : Option FamilySpec)
      → Has [] c
      → Ends (Has desc.nodes) (add_for show io world name desc.nodes c f)
  unfolding add_for
  add_for-Ends world name c none h = tt
  add_for-Ends world name c (some f) h = add_specs-Ends world f.driver desc.nodes [] c h

  add_nodes-Ends :
      (world name : Text) (c : Cell W S A)
      → not (is_empty desc.nodes) ≡ true
      → Has [] c
      → Ends (Has desc.nodes) (add_nodes show io world desc name c)
  unfolding add_nodes
  add_nodes-Ends world name c some_nodes h =
      rw (empty_false (is_empty desc.nodes) some_nodes)
        (add_for-Ends world name c (family name desc.families) h)

  -- What goes before has a cause already, if it fails.
  then-Ends :
      (x : Cell W S A × Status RuntimeError) (next : Cell W S A → Cell W S A × Status RuntimeError)
      → Ends (Has desc.nodes) x
      → ((c : Cell W S A) → Has desc.nodes c → Ends (Has desc.nodes) (next c))
      → Ends (Has desc.nodes) (followed_by (λ why. why) x next)
  unfolding followed_by
  then-Ends (c, ok _) next h k = k c h
  then-Ends (c, err why) next h k = h

  make_cell-Ends :
      (world name : Text) (s : S)
      → not (is_empty desc.nodes) ≡ true
      → Ends (Has desc.nodes) (make_cell show io world desc name s)
  unfolding make_cell all_nodes
  make_cell-Ends world name s some_nodes =
      then-Ends (add_nodes show io world desc name _) _ (add_nodes-Ends world name _ some_nodes tt)
        (λ c h.
          followed_by-Ends (Has desc.nodes) (Has desc.nodes) cell_error (all_nodes io configures c)
            _ (λ why. tt) h
            (λ c' h'.
              followed_by-Ends (Has desc.nodes) (Has desc.nodes) cell_error
                (all_nodes io activates c') _ (λ why. tt) h' (λ c'' h''. h'')))

-- Each robot's slots have the nodes that its spec's chain names.
abbrev pub Binds {ℓ} : {W : Type ℓ} → List Text → List (RobotNode W) → List RobotSpec → Type 0
Binds ids [] [] = Unit
Binds ids [] (spec ∷ specs) = ⊥
Binds ids (r ∷ rs) [] = ⊥
Binds ids (r ∷ rs) (spec ∷ specs) =
    Names ids r.joints (spec.carrier ++ spec.joints) × Binds ids rs specs

module _ {ℓ μ} {W : Type ℓ} {A : Type μ} ⦃d : Double W⦄ where
  bind_all-Binds :
      (ns : List (Node W A)) (desc : CellDescriptor W) (weight : W) (specs : List RobotSpec)
      → All (IsBound ns desc weight) specs
      → (rs : List (RobotNode W)) × (bind_all ns desc weight specs ≡ ok rs)
        × Binds (ids_of ns) rs specs
  unfolding bind_all
  bind_all-Binds ns desc weight [] h = ([], refl, tt)
  bind_all-Binds ns desc weight (spec ∷ specs) ((r, bound, names), h) =
      let (rs, done, binds) = bind_all-Binds ns desc weight specs h in
      (r ∷ rs, rw (bound, done) refl, (names, binds))

module _ {ℓ κ μ} {W : Type ℓ} {S : Type κ} {A : Type μ} ⦃d : Double W⦄ (name : Text)
    (rt : Runtime W S A) where
  -- A build that succeeds leaves a cell of the nodes described, its robots and its family; one that
  -- fails leaves those of before, and has a cause.
  abbrev pub BuildEnds : Runtime W S A × Status RuntimeError → Type (ℓ ⊔ μ)
  BuildEnds (rt', ok _) =
      (ns : List (Node W A)) × (rt'.cell ≡ some ns)
      × IsNamed ns rt.desc.nodes
      × Binds (ids_of ns) rt'.robots rt.desc.robots
      × (rt'.family ≡ name)
  BuildEnds (rt', err why) =
      (rt'.cell ≡ rt.cell) × (rt'.robots ≡ rt.robots) × (rt'.family ≡ rt.family) × IsCause why

  built-BuildEnds :
      (x : Cell W S A × Status RuntimeError)
      → validate rt.desc ≡ success
      → Ends (λ (c : Cell W S A). IsNamed c.nodes rt.desc.nodes) x
      → BuildEnds (built name rt x)
  unfolding built finish
  built-BuildEnds (c, err why) valid h = (refl, refl, refl, h)
  built-BuildEnds (c, ok _) valid h =
      let bound = validate-IsBound c.nodes rt.desc rt.carrier_weight valid h in
      let (rs, done, binds) =
        bind_all-Binds c.nodes rt.desc rt.carrier_weight rt.desc.robots bound in
      rw done (c.nodes, refl, h, binds, refl)

  -- If the descriptor is valid, a build that succeeds leaves a cell of the nodes described, with
  -- every robot bound to the nodes that its chain names, and the family asked for. One that fails
  -- leaves the cell, the robots and the family of before, and the family is unknown or a driver
  -- refused.
  pub build-BuildEnds :
      (show : W → Text) (io : Drivers W S A)
      → validate rt.desc ≡ success
      → BuildEnds (build show io name rt)
  unfolding build
  build-BuildEnds show io valid =
      built-BuildEnds _ valid
        (make_cell-Ends show io rt.desc rt.world name rt.physics (validate-HasNodes rt.desc valid))
