-- ===== src/Gateway/Verbs/Overtaken.antt =====
-- What the replacing of a waiting command in gateway/cell_gateway.hpp does to the order in which the
-- commands of a capability take effect.
use mathlib.Core.Path.{subst}
use robonode.Prelude.{
  ◌≡◌, refl, ◌∙◌, ap, Bool, true, false, Option, some, none, [], ◌∷◌, ◌++◌, map, Text, bytes,
  text_eq, text_eq_iff, lt→ltb, ltb, arith, ◌<◌, is_empty, not, ◌||◌,
}
use robonode.Core.Map.{find, contains}
use robonode.Core.Result.{Result, ok, err, Post, returns, raises, Post-ok, Post-if}
use robonode.Motion.ModuleRegistry.{Factory, has}
use robonode.Gateway.Capability.{
  Select, now, Capability, select, install, rebuild, installed, remember, version_after,
}
use robonode.Gateway.CommandBus.{Entry, CommandBus, submit}
use robonode.Gateway.Verbs.{
  selects, installs, Built, Offers, needs, keyed, no_version, not_compiled, define_in, build_define,
  perform, perform_all, build_set_version,
}

text_eq_same : (t : Text) → text_eq t t ≡ true
text_eq_same t = let (_, same) = text_eq_iff t t in same refl

module _ {ℓ κ μ ν} (D : Type ℓ) {P : Type κ} {T : Type μ} {C : Type ν} (program : P → Factory T C)
    (ctx : C) (id : Text) (c : Capability T C) where
  perform-selects :
      (version : Text)
      → has version c.registry ≡ true
      → (perform {D = D} program ctx id (selects id version) c).version ≡ version
  unfolding perform select rebuild
  perform-selects version known = rw (text_eq_same id, known) refl

  perform-installs :
      (version : Text) (p : P)
      → (perform {D = D} program ctx id (installs id version p now) c).version ≡ version
  unfolding perform install rebuild installed remember version_after
  perform-installs version p = rw (text_eq_same id) refl

module _ {ℓ κ} {T : Type ℓ} {A : Type κ} (f : T → A) (bus : CommandBus T) (u v w : T)
    (key : Text) where
  -- An item without a key waits between two of one key: the last one takes the place of the first.
  submit-replaced :
      is_empty key ≡ false
      → bus.queue ≡ []
      → 1 < bus.capacity
      → let (b, ack) = submit (submit (submit bus u key).0 v []).0 w key in
        (ack.accepted ≡ true) × (map (λ (e : Entry T). f e.item) b.queue ≡ f w ∷ f v ∷ [])
  unfolding submit
  submit-replaced named idle room =
      let one : ltb 0 bus.capacity ≡ true = lt→ltb 0 bus.capacity (omega arith) in
      let two : ltb 1 bus.capacity ≡ true = lt→ltb 1 bus.capacity room in
      rw (idle, named, one, two)
        (rw (text_eq_same key) refl, rw (text_eq_same key) (rw (text_eq_same key) refl))

  -- So also for items that come with their keys.
  submit-overtakes :
      (key_u key_v key_w : Text)
      → key_u ≡ key
      → key_v ≡ []
      → key_w ≡ key
      → is_empty key ≡ false
      → bus.queue ≡ []
      → 1 < bus.capacity
      → let (b, ack) = submit (submit (submit bus u key_u).0 v key_v).0 w key_w in
        (ack.accepted ≡ true) × (map (λ (e : Entry T). f e.item) b.queue ≡ f w ∷ f v ∷ [])
  submit-overtakes key_u key_v key_w is_u is_v is_w named idle room =
      rw (is_u, is_v, is_w) (submit-replaced named idle room)

-- What is so of whatever a result may hold is so of what it holds.
held_by {ℓ κ} :
    {E : Type 0} {A : Type ℓ} (Q : A → Type κ) (r : Result E A) (a : A)
    → Post Q (λ why. Unit) r
    → r ≡ ok a
    → Q a
held_by Q r a h e = Post-ok (subst (Post Q (λ why. Unit)) e h)

module _ {ℓ κ} (D : Type ℓ) (P : Type κ) (E : Type 0) (o : Offers P E) where
  abbrev Selecting : Text → Text → Built D P → Type (ℓ ⊔ κ)
  Selecting id version x = x ≡ keyed (bytes "set_version:" ++ id) (selects id version)

  abbrev Defining : Text → Text → Select → Built D P → Type (ℓ ⊔ κ)
  Defining id name sel y =
      (p : P) × (y ≡ record {
        key = [];
        version = bytes "user." ++ name;
        run = installs id (bytes "user." ++ name) p sel;
      })

  build_set_version-Selecting :
      (id version : Text)
      → Post (Selecting id version) (λ why. Unit) (build_set_version o id version)
  unfolding build_set_version needs
  build_set_version-Selecting id version =
      Post-if (contains id o.capabilities) (given (not (is_empty version))) (raises tt)
    where
      given :
          (b : Bool)
          → Post
              (Selecting id version)
              (λ why. Unit)
              (needs {E = E} b no_version (keyed (bytes "set_version:" ++ id) (selects id version)))
      given true = returns refl
      given false = raises tt

  define_in-Defining :
      (compile : Option (Text → Result E P)) (id name source : Text) (sel : Select)
      → Post (Defining id name sel) (λ why. Unit) (define_in compile id name source sel)
  unfolding define_in
  define_in-Defining none id name source sel = raises tt
  define_in-Defining (some compile) id name source sel =
      Post-if (is_empty name || is_empty source) (raises tt) (compiled (compile source))
    where
      compiled :
          (r : Result E P)
          → Post
              (Defining id name sel)
              (λ why. Unit)
              (elim r [
                | err why ↦ err (not_compiled why)
                | ok p ↦ ok (record {
                  key = [];
                  version = bytes "user." ++ name;
                  run = installs id (bytes "user." ++ name) p sel;
                })
              ])
      compiled (ok p) = returns (p, refl)
      compiled (err why) = raises tt

module _ {ℓ κ μ ν} {D : Type ℓ} {P : Type κ} {T : Type μ} {C : Type ν} {E : Type 0}
    (program : P → Factory T C) (ctx : C) (o : Offers P E) (id a b name source : Text)
    (bus : CommandBus (Built D P)) (c : Capability T C) (x y z : Built D P) where
  -- Of three commands that reach an idle gateway while its worker is held up, one that selects a
  -- version, one that defines a program as a version and selects it, and one that selects a version
  -- again, the last is accepted, but it takes effect before the second: in the end the version of the
  -- program is named, although run in their order the three would leave the one that was asked for
  -- last, if it is registered by then.
  pub set_version-overtaken :
      build_set_version o id a ≡ ok x
      → build_define o id name source now ≡ ok y
      → build_set_version o id b ≡ ok z
      → bus.queue ≡ []
      → 1 < bus.capacity
      → has b (perform_all program ctx id (x.run ∷ y.run ∷ []) c).registry ≡ true
      → let (waiting, ack) = submit (submit (submit bus x x.key).0 y y.key).0 z z.key in
        let runs = map (λ (e : Entry (Built D P)). e.item.run) waiting.queue in
        (ack.accepted ≡ true)
        × ((perform_all program ctx id runs c).version ≡ bytes "user." ++ name)
        × ((perform_all program ctx id (x.run ∷ y.run ∷ z.run ∷ []) c).version ≡ b)
  unfolding build_define perform_all keyed
  set_version-overtaken selects_a defines selects_b idle room known =
      let is_x = held_by _ _ x (build_set_version-Selecting D P E o id a) selects_a in
      let (p, is_y) =
        held_by _ _ y (define_in-Defining D P E o (find id o.capabilities) id name source now)
          defines in
      let is_z = held_by _ _ z (build_set_version-Selecting D P E o id b) selects_b in
      let key = λ (w : Built D P). w.key in
      let (taken, runs) =
        submit-overtakes (λ (w : Built D P). w.run) bus x y z (bytes "set_version:" ++ id) x.key
          y.key z.key (ap key is_x) (ap key is_y) (ap key is_z) refl idle room in
      let before = perform_all program ctx id (x.run ∷ y.run ∷ []) c in
      (
        taken,
        ap (λ ws. (perform_all program ctx id ws c).version) runs
            ∙ ap
                (λ (w : Built D P).
                  (perform program ctx id w.run (perform program ctx id z.run c)).version)
                is_y
            ∙ perform-installs D program ctx id (perform program ctx id z.run c) _ p,
        ap (λ (w : Built D P). (perform program ctx id w.run before).version) is_z
            ∙ perform-selects D program ctx id before b known,
      )
