-- ===== src/Celld/Robot/Bound.antt =====
-- What `RobotNode` of celld/robot_node.hpp binds, and what it composes.
use robonode.Prelude.{
  ℕ, suc, ◌+◌, ◌≡◌, refl, sym, ap, true, false, Bool-cases, inl, inr, some, List, [], ◌∷◌, ◌++◌,
  map, get_elem?, All, Text, text_eq, text_eq_iff, arith,
}
use robonode.Core.Double.{Double}
use robonode.Core.Result.{ok}
use robonode.Celld.Cell.{Node}
use robonode.Celld.CellDescriptor.{CellNodeSpec, RobotSpec, CellDescriptor, has_axis, validate}
use robonode.Celld.CellDescriptor.Valid.{IsBindable, validate-IsBindable}
use robonode.Celld.Robot.{RobotNode, index_of, found, resolve, bind}

-- The slot has the node of that id.
abbrev pub Names : List Text → List ℕ → List Text → Type 0
Names ids [] [] = Unit
Names ids [] (c ∷ cs) = ⊥
Names ids (i ∷ is) [] = ⊥
Names ids (i ∷ is) (c ∷ cs) = (get_elem? ids i ≡ some c) × Names ids is cs

module _ {ℓ μ} {W : Type ℓ} {A : Type μ} where
  -- The nodes are made from the specs, in their order.
  abbrev pub IsNamed : List (Node W A) → List (CellNodeSpec W) → Type 0
  IsNamed [] [] = Unit
  IsNamed [] (s ∷ ss) = ⊥
  IsNamed (n ∷ ns) [] = ⊥
  IsNamed (n ∷ ns) (s ∷ ss) = (n.id ≡ s.id) × IsNamed ns ss

  abbrev pub ids_of : List (Node W A) → List Text
  ids_of ns = map (λ n. n.id) ns

  index_of-has_axis :
      (id : Text) (k : ℕ) (ns : List (Node W A)) (ss : List (CellNodeSpec W))
      → IsNamed ns ss
      → has_axis id ss ≡ true
      → (i : ℕ) × (index_of id k ns ≡ some (k + i)) × (get_elem? (ids_of ns) i ≡ some id)
  unfolding index_of has_axis
  index_of-has_axis id k [] [] named h = ground arith
  index_of-has_axis id k [] (s ∷ ss) named h = elim named [ ]
  index_of-has_axis id k (n ∷ ns) [] named h = elim named [ ]
  index_of-has_axis id k (n ∷ ns) (s ∷ ss) (here, named) h = elim (Bool-cases (text_eq n.id id)) [
    | inl e ↦ (0, ground arith, ap some ((text_eq_iff n.id id).0 e))
    | inr e ↦
        let e' : text_eq s.id id ≡ false = rw (sym here) e in
        let (i, at, is) = index_of-has_axis id (k + 1) ns ss named (ground arith) in
        (suc i, ground (arith, at), is)
  ]

  resolve-Names :
      (owner : Text) (ns : List (Node W A)) (ss : List (CellNodeSpec W)) (ids : List Text)
      → IsNamed ns ss
      → All (λ id. has_axis id ss ≡ true) ids
      → (slots : List ℕ) × (resolve owner ns ids ≡ ok slots) × Names (ids_of ns) slots ids
  unfolding resolve found
  resolve-Names owner ns ss [] named h = ([], refl, tt)
  resolve-Names owner ns ss (id ∷ ids) named (h, hs) =
      let (i, at, is) = index_of-has_axis id 0 ns ss named h in
      let at0 : index_of id 0 ns ≡ some i = ground (arith, at) in
      let (slots, done, names) = resolve-Names owner ns ss ids named hs in
      (i ∷ slots, rw (at0, done) refl, (is, names))

module _ {ℓ μ} {W : Type ℓ} {A : Type μ} ⦃d : Double W⦄ where
  -- The robot is bound, and each of its slots has the node of that axis of its chain.
  abbrev pub IsBound : List (Node W A) → CellDescriptor W → W → RobotSpec → Type ℓ
  IsBound ns desc carrier_weight spec =
      (r : RobotNode W) × (bind spec ns desc carrier_weight ≡ ok r)
      × Names (ids_of ns) r.joints (spec.carrier ++ spec.joints)

  bind-IsBound :
      (ns : List (Node W A)) (desc : CellDescriptor W) (w : W) (spec : RobotSpec)
      → IsNamed ns desc.nodes
      → IsBindable desc.nodes spec
      → IsBound ns desc w spec
  unfolding bind
  bind-IsBound ns desc w spec named (axes, joints) =
      let (slots, done, names) =
        resolve-Names spec.id ns desc.nodes (spec.carrier ++ spec.joints) named axes in
      rw (joints, done) (_, refl, names)

  bind-All :
      (ns : List (Node W A)) (desc : CellDescriptor W) (w : W) (specs : List RobotSpec)
      → IsNamed ns desc.nodes
      → All (IsBindable desc.nodes) specs
      → All (IsBound ns desc w) specs
  bind-All ns desc w [] named h = tt
  bind-All ns desc w (spec ∷ specs) named (h, hs) =
      (bind-IsBound ns desc w spec named h, bind-All ns desc w specs named hs)

  pub validate-IsBound :
      (ns : List (Node W A)) (desc : CellDescriptor W) (carrier_weight : W)
      → validate desc ≡ ok tt
      → IsNamed ns desc.nodes
      → All (IsBound ns desc carrier_weight) desc.robots
  validate-IsBound ns desc carrier_weight valid named =
      bind-All ns desc carrier_weight desc.robots named (validate-IsBindable desc valid)
