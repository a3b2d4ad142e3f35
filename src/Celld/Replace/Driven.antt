-- ===== src/Celld/Replace/Driven.antt =====
-- `replace_node` of celld/cell.hpp, where it succeeds: which driver the node then has.
use robonode.Prelude.{
  ◌≡◌, refl, true, false, Bool-cases, inl, inr, Option, none, some, List, [], ◌∷◌, Text, text_eq,
  if◌then◌else◌, arith,
}
use robonode.Core.Double.{Double}
use robonode.Core.Result.{Result, ok, err, success, Status}
use robonode.Celld.Driver.{Descriptor, Drivers}
use robonode.Celld.Cell.{
  Node, Cell, CellError, replace_activated, replace_configured, replace_made, replace_found,
  replace_in, replace_node,
}

-- The driver of the first node of a name.
unfoldable pub driver_of {ℓ μ} : {W : Type ℓ} {A : Type μ} → Text → List (Node W A) → Option Text
driver_of id [] = none
driver_of id (n ∷ ns) = if text_eq n.id id then some n.descriptor.driver else driver_of id ns

module _ {ℓ κ μ} {W : Type ℓ} {S : Type κ} {A : Type μ} ⦃d : Double W⦄ (io : Drivers W S A)
    (driver : Text) where
  -- The node has its name, and the driver.
  abbrev Driven : Node W A → (S × Node W A) × Status CellError → Type 0
  Driven n ((s, n'), ok _) = (n'.id ≡ n.id) × (n'.descriptor.driver ≡ driver)
  Driven n ((s, n'), err why) = Unit

  activated-Driven :
      (n : Node W A) (desc : Descriptor W) (a : A) (x : S × Status Text)
      → desc.driver ≡ driver
      → Driven n (replace_activated io n desc a x)
  unfolding replace_activated
  activated-Driven n desc a (s, ok _) h = (refl, h)
  activated-Driven n desc a (s, err why) h = tt

  configured-Driven :
      (n : Node W A) (desc : Descriptor W) (a : A) (x : S × Status Text)
      → desc.driver ≡ driver
      → Driven n (replace_configured io n desc a x)
  unfolding replace_configured
  configured-Driven n desc a (s, ok _) h = activated-Driven n desc a (io.activate a s) h
  configured-Driven n desc a (s, err why) h = tt

  made-Driven :
      (n : Node W A) (desc : Descriptor W) (x : S × Result Text A)
      → desc.driver ≡ driver
      → Driven n (replace_made io n desc x)
  unfolding replace_made
  made-Driven n desc (s, ok a) h = configured-Driven n desc a (io.configure a s) h
  made-Driven n desc (s, err why) h = tt

  found-Driven : (n : Node W A) (s : S) → Driven n (replace_found io driver n s)
  unfolding replace_found
  found-Driven n s = made-Driven n _ _ refl

  abbrev Runs : Text → (S × List (Node W A)) × Status CellError → Type 0
  Runs id ((s, ns), ok _) = driver_of id ns ≡ some driver
  Runs id ((s, ns), err why) = Unit

  Driven-Runs :
      (id : Text) (n : Node W A) (ns : List (Node W A)) (x : (S × Node W A) × Status CellError)
      → text_eq n.id id ≡ true
      → Driven n x
      → Runs id ((x.0.0, x.0.1 ∷ ns), x.1)
  unfolding driver_of
  Driven-Runs id n ns ((s, n'), ok _) same (name, runs) = rw (name, same, runs) refl
  Driven-Runs id n ns ((s, n'), err why) same h = tt

  other-Runs :
      (id : Text) (n : Node W A) (x : (S × List (Node W A)) × Status CellError)
      → text_eq n.id id ≡ false
      → Runs id x
      → Runs id ((x.0.0, n ∷ x.0.1), x.1)
  unfolding driver_of
  other-Runs id n ((s, ns), ok _) other h = rw other h
  other-Runs id n ((s, ns), err why) other h = tt

  in-Runs : (id : Text) (s : S) (ns : List (Node W A)) → Runs id (replace_in io id driver s ns)
  unfolding replace_in
  in-Runs id s [] = tt
  in-Runs id s (n ∷ ns) = elim (Bool-cases (text_eq n.id id)) [
    | inl same ↦ rw same (Driven-Runs id n ns (replace_found io driver n s) same (found-Driven n s))
    | inr other ↦ rw other (other-Runs id n (replace_in io id driver s ns) other (in-Runs id s ns))
  ]

  Runs-ok :
      (id : Text) (x : (S × List (Node W A)) × Status CellError)
      → Runs id x
      → x.1 ≡ success
      → driver_of id x.0.1 ≡ some driver
  Runs-ok id ((s, ns), ok _) h e = h
  Runs-ok id ((s, ns), err why) h e = absurd (ground arith)

  -- After a replacement that succeeds, the node of that name has the new driver.
  pub replace_node-driver_of :
      (id : Text) (c : Cell W S A)
      → (replace_node io id driver c).1 ≡ success
      → driver_of id (replace_node io id driver c).0.nodes ≡ some driver
  unfolding replace_node
  replace_node-driver_of id c e =
      Runs-ok id (replace_in io id driver c.world c.nodes) (in-Runs id c.world c.nodes) e
