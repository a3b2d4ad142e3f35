-- ===== src/Celld/Replace.antt =====
-- `replace_node` of celld/cell.hpp, where it fails.
pub mod Driven
use robonode.Prelude.{
  ◌≡◌, refl, ◌∙◌, sym, ◌≢◌, Bool-cases, inl, inr, List, [], ◌∷◌, ap, Text, text_eq, arith,
}
use robonode.Core.Double.{Double}
use robonode.Core.Result.{Result, ok, err, success, Status}
use robonode.Celld.Driver.{inactive, Descriptor, Drivers, IsLawful}
use robonode.Celld.Cell.{
  Node, Cell, CellError, message, context_of, replace_activated, replace_configured, replace_made,
  replace_found, replace_in, replace_node,
}

module _ {ℓ κ μ} {W : Type ℓ} {S : Type κ} {A : Type μ} ⦃d : Double W⦄ (io : Drivers W S A) where
  -- The node is as it was, if the status is an error.
  abbrev Kept {ν} : {B : Type ν} → B → (S × B) × Status CellError → Type ν
  Kept b ((s, b'), ok _) = Unit
  Kept b ((s, b'), err why) = b' ≡ b

  activated-Kept :
      (n : Node W A) (desc : Descriptor W) (a : A) (x : S × Status Text)
      → Kept n (replace_activated io n desc a x)
  unfolding replace_activated
  activated-Kept n desc a (s, ok _) = tt
  activated-Kept n desc a (s, err why) = refl

  configured-Kept :
      (n : Node W A) (desc : Descriptor W) (a : A) (x : S × Status Text)
      → Kept n (replace_configured io n desc a x)
  unfolding replace_configured
  configured-Kept n desc a (s, ok _) = activated-Kept n desc a _
  configured-Kept n desc a (s, err why) = refl

  made-Kept :
      (n : Node W A) (desc : Descriptor W) (x : S × Result Text A)
      → Kept n (replace_made io n desc x)
  unfolding replace_made
  made-Kept n desc (s, ok a) = configured-Kept n desc a _
  made-Kept n desc (s, err why) = refl

  Kept-cons :
      (n : Node W A) (ns : List (Node W A)) (x : (S × List (Node W A)) × Status CellError)
      → Kept ns x
      → Kept (n ∷ ns) ((x.0.0, n ∷ x.0.1), x.1)
  Kept-cons n ns ((s, ns'), ok _) k = tt
  Kept-cons n ns ((s, ns'), err why) k = ap (◌∷◌ n) k

  Kept-head :
      (n : Node W A) (ns : List (Node W A)) (x : (S × Node W A) × Status CellError)
      → Kept n x
      → Kept (n ∷ ns) ((x.0.0, x.0.1 ∷ ns), x.1)
  Kept-head n ns ((s, n'), ok _) k = tt
  Kept-head n ns ((s, n'), err why) k = ap (λ m. m ∷ ns) k

  in-Kept :
      (id driver : Text) (s : S) (ns : List (Node W A)) → Kept ns (replace_in io id driver s ns)
  unfolding replace_in replace_found
  in-Kept id driver s [] = refl
  in-Kept id driver s (n ∷ ns) = elim (Bool-cases (text_eq n.id id)) [
    | inl e ↦ rw e (Kept-head n ns (replace_found io driver n s) (made-Kept n _ _))
    | inr e ↦ rw e (Kept-cons n ns (replace_in io id driver s ns) (in-Kept id driver s ns))
  ]

  Kept-err :
      {B : Type (ℓ ⊔ μ)} (b : B) (x : (S × B) × Status CellError) (why : CellError)
      → Kept b x
      → x.1 ≡ err why
      → x.0.1 ≡ b
  Kept-err b ((s, b'), ok _) why k e = ground arith
  Kept-err b ((s, b'), err _) why k e = k

  -- A replacement that fails leaves the nodes of the cell as they were.
  pub replace_node-err :
      (id driver : Text) (c : Cell W S A) (why : CellError)
      → (replace_node io id driver c).1 ≡ err why
      → (replace_node io id driver c).0.nodes ≡ c.nodes
  unfolding replace_node
  replace_node-err id driver c why e =
      Kept-err c.nodes (replace_in io id driver c.world c.nodes) why
        (in-Kept id driver c.world c.nodes) e

  -- But where the new adapter is made and then refuses to be configured, the old one is left
  -- inactive: it was deactivated first, and nothing activates it again.
  pub replace_found-inactive :
      (laws : IsLawful io) (driver : Text) (n : Node W A) (s s' s'' : S) (a : A) (why : Text)
      → (io.deactivate n.adapter s).1 ≡ success
      → io.make driver
          (context_of io (record (n.descriptor) { driver = driver }))
          (io.deactivate n.adapter s).0
        ≡ (s', ok a)
      → io.configure a s' ≡ (s'', err why)
      → n.adapter ≢ a
      → (replace_found io driver n s ≡ ((s'', n), err (message why)))
        × (io.lifecycle n.adapter s'' ≡ inactive)
  unfolding replace_found replace_made replace_configured
  replace_found-inactive laws driver n s s' s'' a why off made refused other = (
    rw (made, refused) refl,
    ap (λ p. io.lifecycle n.adapter p.0) (sym refused)
        ∙ (laws.configure_frame n.adapter a s' other
            ∙ (ap (λ p. io.lifecycle n.adapter p.0) (sym made)
                ∙ (laws.make_frame driver _ n.adapter _
                    ∙ laws.deactivate_inactive n.adapter s off))),
  )
