-- ===== src/Gateway/Directory/Names.antt =====
-- What the names of gateway/cell_manager.hpp and motion/module_registry.hpp give.
use robonode.Prelude.{
  ◌≡◌, refl, ap, inl, inr, true, false, Bool-cases, some, List, [], ◌∷◌, Text, bytes, text_eq,
  text_eq_iff, arith, All,
}
use robonode.Core.Map.{
  Map, After, Rises, text_lt, find, contains, keys, find-assign, find-assign_other,
  find-erase_other, assign-Rises,
}
use robonode.Gateway.Directory.{Request, adds, removes, cell_of, new_manager, request, request_all}
use robonode.Motion.ModuleRegistry.{Factory, add, names, built, make, make_with, add_all}

module _ {ℓ} {G : Type ℓ} where
  contains-find : (k : Text) (m : Map G) {g : G} → find k m ≡ some g → contains k m ≡ true
  unfolding contains
  contains-find k m h = rw (h, contains) refl

  request-main :
      (q : Request G) (cells : Map G) (g : G)
      → cell_of (bytes "main") cells ≡ some g
      → cell_of (bytes "main") (request q cells) ≡ some g
  unfolding request cell_of
  request-main (adds id gateway) cells g h = elim (Bool-cases (text_eq (bytes "main") id)) [
    | inl e ↦ ground (arith, text_eq_iff (bytes "main") id, contains-find (bytes "main") cells h, h)
    | inr e ↦ ground (arith, find-assign_other (bytes "main") id gateway cells e, h)
  ]
  request-main (removes id) cells g h = elim (Bool-cases (text_eq (bytes "main") id)) [
    | inl e ↦ ground (arith, text_eq_iff (bytes "main") id, text_eq_iff id (bytes "main"), h)
    | inr e ↦ ground (arith, find-erase_other (bytes "main") id cells e, h)
  ]

  request_all-main :
      (qs : List (Request G)) (cells : Map G) (g : G)
      → cell_of (bytes "main") cells ≡ some g
      → cell_of (bytes "main") (request_all qs cells) ≡ some g
  unfolding request_all
  request_all-main [] cells g h = h
  request_all-main (q ∷ qs) cells g h = request_all-main qs _ g (request-main q cells g h)

  main-new_manager : (g : G) → cell_of (bytes "main") (new_manager g) ≡ some g
  unfolding cell_of new_manager
  main-new_manager g = refl

  -- The main cell is there as long as the manager, and is never another one: whatever is added and
  -- removed, by whichever ids, `cell` of "main" is the gateway that the manager was made with.
  new_manager-main :
      (qs : List (Request G)) (g : G)
      → cell_of (bytes "main") (request_all qs (new_manager g)) ≡ some g
  new_manager-main qs g = request_all-main qs (new_manager g) g (main-new_manager g)

-- A list of names, each before all those that follow.
abbrev Ascends : List Text → Type 0
Ascends [] = Unit
Ascends (k ∷ ks) = All (λ j. text_lt k j ≡ true) ks × Ascends ks

After-keys {ℓ} :
    {V : Type ℓ} (k : Text) (m : Map V) → After k m → All (λ j. text_lt k j ≡ true) (keys m)
unfolding keys
After-keys k [] a = tt
After-keys k ((k', v) ∷ m) (l, a) = (l, After-keys k m a)

keys-Ascends {ℓ} : {V : Type ℓ} (m : Map V) → Rises m → Ascends (keys m)
unfolding keys
keys-Ascends [] r = tt
keys-Ascends ((k, v) ∷ m) (a, r) = (After-keys k m a, keys-Ascends m r)

module _ {ℓ κ} {T : Type ℓ} {C : Type κ} where
  add_all-Rises :
      (rest : List (Text × Factory T C)) (m : Map (Factory T C)) → Rises m → Rises (add_all rest m)
  unfolding add_all
  add_all-Rises [] m r = r
  add_all-Rises ((name, factory) ∷ rest) m r = add_all-Rises rest _ (assign-Rises name factory m r)

  -- The names of a registry are sorted and none stands twice, in whichever order its versions were
  -- registered and however often.
  names-Ascends : (rest : List (Text × Factory T C)) → Ascends (names (add_all rest []))
  unfolding names
  names-Ascends rest = keys-Ascends (add_all rest []) (add_all-Rises rest [] tt)

  -- A version that is registered is made by its factory, a null of the factory being an error; and
  -- what any other name makes is as before.
  make-add :
      (name other : Text) (factory : Factory T C) (m : Map (Factory T C)) (ctx : C)
      → text_eq other name ≡ false
      → (make name ctx (add name factory m) ≡ built name (factory ctx))
        × (make other ctx (add name factory m) ≡ make other ctx m)
  unfolding make add
  make-add name other factory m ctx h = (
    ap (make_with name ctx) (find-assign name factory m),
    ap (make_with other ctx) (find-assign_other other name factory m h),
  )
