-- ===== src/Gateway/Capability/Live.antt =====
-- Which version of a capability is in force.
use robonode.Prelude.{
  ◌≡◌, refl, ◌∙◌, ap, sym, Bool, true, false, Bool-cases, inl, inr, Option, none, some, List, [],
  ◌∷◌, Text, if◌then◌else◌, text_eq, text_eq_iff, arith,
}
use robonode.Core.Map.{Map, find, contains, assign, find-assign, find-assign_other}
use robonode.Motion.ModuleRegistry.{Factory, add, has}
use robonode.Gateway.Capability.{
  Capability, Select, now, later, made_into, rebuild, remember, select, version_after, installed,
  install, Change, selects, installs, change, change_all,
}

module _ {ℓ κ} {T : Type ℓ} {C : Type κ} (ctx : C) where
  -- The version is registered, and what its factory makes is in force.
  abbrev pub IsLive : Capability T C → Type (ℓ ⊔ κ)
  IsLive c =
      (factory : Factory T C) × (find c.version c.registry ≡ some factory)
      × (c.current ≡ factory ctx)

  rebuild-IsLive :
      (c : Capability T C) (factory : Factory T C)
      → find c.version c.registry ≡ some factory
      → IsLive (rebuild ctx c)
  unfolding rebuild
  rebuild-IsLive c factory h = (factory, h, ap (made_into ctx c.current) h)

  contains-find :
      (k : Text) (m : Map (Factory T C))
      → contains k m ≡ true
      → (factory : Factory T C) × (find k m ≡ some factory)
  unfolding contains
  contains-find k m h = go (find k m) refl h
    where
      go :
          (x : Option (Factory T C))
          → find k m ≡ x
          → elim x as (λ y. Bool) [ none ↦ false | some v ↦ true ] ≡ true
          → (factory : Factory T C) × (find k m ≡ some factory)
      go none e h = ground arith
      go (some f) e h = (f, e)

  select-IsLive : (version : Text) (c : Capability T C) → IsLive c → IsLive (select ctx version c).0
  unfolding select has
  select-IsLive version c live = elim (Bool-cases (contains version c.registry)) [
    | inl h ↦
        let (factory, e) = contains-find version c.registry h in
        rw h (rebuild-IsLive (record c { version = version }) factory e)
    | inr h ↦ rw h live
  ]

  -- The version in force is registered still, be it the one installed or another.
  find-add :
      (id version : Text) (factory f : Factory T C) (m : Map (Factory T C))
      → find version m ≡ some f
      → (g : Factory T C) × (find version (add id factory m) ≡ some g)
  unfolding add
  find-add id version factory f m h = elim (Bool-cases (text_eq version id)) [
    | inl e ↦ (
      factory,
      ap (λ k. find k (assign id factory m)) ((text_eq_iff version id).0 e)
          ∙ find-assign id factory m,
    )
    | inr e ↦ (f, find-assign_other version id factory m e ∙ h)
  ]

  install-IsLive :
      (id : Text) (factory : Factory T C) (sel : Select) (c : Capability T C)
      → IsLive c
      → IsLive (install ctx id factory sel c)
  unfolding install installed remember version_after add
  install-IsLive id factory now c live =
      rebuild-IsLive (installed id factory now c) factory (find-assign id factory c.registry)
  install-IsLive id factory later c (f, e, is) =
      let (g, h) = find-add id c.version factory f c.registry e in
      rebuild-IsLive (installed id factory later c) g h

  change-IsLive : (q : Change T C) (c : Capability T C) → IsLive c → IsLive (change ctx q c)
  unfolding change
  change-IsLive (selects version) c live = select-IsLive version c live
  change-IsLive (installs id factory sel) c live = install-IsLive id factory sel c live

  -- However the versions of a capability are selected and installed, the one that it names is
  -- registered and what its factory makes is in force, if that was so at first.
  pub change_all-IsLive :
      (qs : List (Change T C)) (c : Capability T C) → IsLive c → IsLive (change_all ctx qs c)
  unfolding change_all
  change_all-IsLive [] c live = live
  change_all-IsLive (q ∷ qs) c live = change_all-IsLive qs (change ctx q c) (change-IsLive q c live)

  -- A version that is installed for later leaves the one in force, unless they have one name: then it
  -- is in force at once.
  install-later :
      (id : Text) (factory : Factory T C) (c : Capability T C)
      → IsLive c
      → (install ctx id factory later c).current
        ≡ (if text_eq c.version id then factory ctx else c.current)
  unfolding install installed remember version_after rebuild add
  install-later id factory c (f, e, is) = elim (Bool-cases (text_eq c.version id)) [
    | inl same ↦ rw same (
        ap (λ k. made_into ctx c.current (find k (assign id factory c.registry)))
          ((text_eq_iff c.version id).0 same)
        ∙ ap (made_into ctx c.current) (find-assign id factory c.registry))
    | inr other ↦ rw other (
        ap (made_into ctx c.current) (find-assign_other c.version id factory c.registry other ∙ e)
        ∙ sym is)
  ]
