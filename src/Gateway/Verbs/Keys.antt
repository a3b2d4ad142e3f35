-- ===== src/Gateway/Verbs/Keys.antt =====
-- Which waiting command of gateway/cell_gateway.hpp a new one replaces.
use mathlib.Core.Path.{subst}
use mathlib.Core.Option.{some-injective}
use robonode.Prelude.{
  ◌≡◌, refl, sym, ◌∙◌, ap, Bool, true, false, Option, none, some, [], ◌∷◌, ◌++◌, ◌==◌, Text, bytes,
  text_eq, is_empty, arith, Bool-cases, inl, inr, if◌then◌else◌,
}
use robonode.Core.Map.{Map, find, contains}
use robonode.Core.Result.{Result, ok, err}
use robonode.Core.Double.{Double}
use robonode.Core.Geometry.{Maths}
use robonode.Gateway.Capability.{Select}
use robonode.Gateway.Verbs.{
  Fields, Work, runs_motion, builds, swaps_node, swaps_scene, selects, moves_pose, moves_l, jogs,
  runs_app, installs, Built, VerbError, Offers, needs, plain, keyed, define_in, build_define,
  build_set_version, build_driver, build_set_driver, build_load_scene, build_run, build_jog,
  register_verbs, no_source, not_compiled,
}

-- What a command sets, where a later one of its kind takes its place.
pub data Subject : Type 0 where
  nothing the_family the_scene : Subject
  node capability : Text → Subject

unfoldable pub subject {ℓ κ} : {D : Type ℓ} {P : Type κ} → Work D P → Subject
subject (builds family) = the_family
subject (swaps_node id driver) = node id
subject (swaps_scene scene label) = the_scene
subject (selects cap version) = capability cap
subject (runs_motion id) = nothing
subject (moves_pose pose) = nothing
subject (moves_l point) = nothing
subject (jogs axis target) = nothing
subject (runs_app program) = nothing
subject (installs cap id p sel) = nothing

-- What is left of a text after a first part.
unfoldable after : Text → Text → Option Text
after [] t = some t
after (a ∷ p) [] = none
after (a ∷ p) (b ∷ t) = let rest = after p t in if a == b then rest else none

-- The subject that a key stands for.
unfoldable of_capability : Option Text → Subject
of_capability (some id) = capability id
of_capability none = nothing

unfoldable of_node : Text → Option Text → Subject
unfolding after of_capability
of_node key (some id) = node id
of_node key none = of_capability (after (bytes "set_version:") key)

unfoldable of_key : Text → Subject
unfolding after of_node text_eq
of_key key =
    if text_eq key (bytes "driver")
    then the_family
    else if text_eq key (bytes "load_scene")
    then the_scene
    else of_node key (after (bytes "set_driver:") key)

unfoldable key_of : Subject → Text
key_of nothing = []
key_of the_family = bytes "driver"
key_of the_scene = bytes "load_scene"
key_of (node id) = bytes "set_driver:" ++ id
key_of (capability id) = bytes "set_version:" ++ id

of_key-key_of : (s : Subject) → of_key (key_of s) ≡ s
unfolding of_key key_of
of_key-key_of nothing = refl
of_key-key_of the_family = refl
of_key-key_of the_scene = refl
of_key-key_of (node id) = refl
of_key-key_of (capability id) = refl

module _ {ℓ κ} {D : Type ℓ} {P : Type κ} {E : Type 0} where
  -- The key of what was built is that of its subject.
  abbrev Fits : Result (VerbError E) (Built D P) → Type 0
  Fits (ok x) = x.key ≡ key_of (subject x.run)
  Fits (err why) = Unit

  abbrev AllFit {μ} : {J : Type μ} → Map (J → Result (VerbError E) (Built D P)) → Type μ
  AllFit [] = Unit
  AllFit ((verb, build) ∷ verbs) = ((a : _) → Fits (build a)) × AllFit verbs

  needs-Fits :
      (given : Bool) (why : VerbError E) (b : Built D P)
      → b.key ≡ key_of (subject b.run)
      → Fits (needs given why b)
  unfolding needs
  needs-Fits true why b h = h
  needs-Fits false why b h = tt

  plain-Fits :
      (given : Bool) (why : VerbError E) (w : Work D P)
      → subject w ≡ nothing
      → Fits (needs given why (plain w))
  unfolding plain key_of
  plain-Fits given why w h = needs-Fits given why (plain w) (sym (ap key_of h))

  keyed-Fits :
      (given : Bool) (why : VerbError E) (key : Text) (w : Work D P)
      → key ≡ key_of (subject w)
      → Fits (needs given why (keyed key w))
  unfolding keyed
  keyed-Fits given why key w h = needs-Fits given why (keyed key w) h

  find-Fits :
      {J : Type 0} (verbs : Map (J → Result (VerbError E) (Built D P))) (verb : Text)
      (build : J → Result (VerbError E) (Built D P)) (a : J)
      → AllFit verbs
      → find verb verbs ≡ some build
      → Fits (build a)
  unfolding find
  find-Fits [] verb build a fit is = absurd (ground arith)
  find-Fits ((v, b) ∷ verbs) verb build a (fit, fits) is =
      chosen (text_eq verb v) (find verb verbs) (find-Fits verbs verb build a fits) is
    where
      chosen :
          (this : Bool) (rest : Option _)
          → (rest ≡ some build → Fits (build a))
          → (if this then some b else rest) ≡ some build
          → Fits (build a)
      chosen true rest k is = subst (λ b'. Fits (b' a)) (some-injective b build is) (fit a)
      chosen false rest k is = k is

module _ {ℓ κ} (D : Type ℓ) (P : Type κ) (E : Type 0) where
  define_in-Fits :
      (compile : Option (Text → Result E P)) (id name source : Text) (sel : Select)
      → Fits {D = D} (define_in compile id name source sel)
  unfolding define_in key_of subject
  define_in-Fits none id name source sel = tt
  define_in-Fits (some compile) id name source sel = compiled _ (compile source)
    where
      compiled :
          (missing : Bool) (r : Result E P)
          → Fits {D = D} (
              if missing then err no_source else elim r [
                | err why ↦ err (not_compiled why)
                | ok p ↦ ok (record {
                  key = [];
                  version = bytes "user." ++ name;
                  run = installs id (bytes "user." ++ name) p sel;
                })
              ])
      compiled true r = tt
      compiled false (ok p) = refl
      compiled false (err why) = tt

  build_set_version-Fits :
      (o : Offers P E) (id version : Text) → Fits {D = D} (build_set_version o id version)
  unfolding build_set_version key_of subject
  build_set_version-Fits o id version = elim (Bool-cases (contains id o.capabilities)) [
    | inl there ↦ rw there (keyed-Fits _ _ _ (selects id version) refl)
    | inr missing ↦ rw missing tt
  ]

  build_define-Fits :
      (o : Offers P E) (id name source : Text) (sel : Select)
      → Fits {D = D} (build_define o id name source sel)
  unfolding build_define
  build_define-Fits o id name source sel =
      define_in-Fits (find id o.capabilities) id name source sel

  module _ ⦃d : Double D⦄ ⦃maths : Maths D⦄ {J : Type 0} (f : Fields J D) where
    build_jog-Fits : (a : J) → Fits {P = P} {E = E} (build_jog f a)
    unfolding build_jog subject
    build_jog-Fits a = elim (Bool-cases (is_empty (f.text_at (bytes "axis") [] a))) [
      | inl there ↦ rw there tt
      | inr missing ↦ rw missing (plain-Fits _ _ _ refl)
    ]

    register_verbs-AllFit : (o : Offers P E) → AllFit (register_verbs f o)
    unfolding register_verbs build_run build_driver build_set_driver build_load_scene key_of subject
    register_verbs-AllFit o = (
      λ a. plain-Fits _ _ _ refl,
      (
        λ a. keyed-Fits _ _ _ (builds _) refl,
        (
          λ a. keyed-Fits _ _ _ (swaps_node _ _) refl,
          (
            λ a. plain-Fits _ _ _ refl,
            (
              λ a. plain-Fits _ _ _ refl,
              (
                build_jog-Fits,
                (
                  λ a. plain-Fits _ _ _ refl,
                  (
                    λ a. build_set_version-Fits o _ _,
                    (
                      λ a. build_define-Fits o _ _ _ _,
                      (λ a. keyed-Fits _ _ _ (swaps_scene _ _) refl, tt),
                    ),
                  ),
                ),
              ),
            ),
          ),
        ),
      ),
    )

module _ {ℓ κ} {D : Type ℓ} {P : Type κ} {E : Type 0} ⦃d : Double D⦄ ⦃maths : Maths D⦄ {J : Type 0}
    (f : Fields J D) where
  -- Two commands that verbs of a gateway make, also of different arguments and in different states of
  -- the cell, have the same key exactly where they are about the same thing: the family, the scene,
  -- the driver of one node, the version of one capability, or nothing that a later command sets anew.
  pub register_verbs-keys :
      (o o' : Offers P E) (verb verb' : Text) (build build' : J → Result (VerbError E) (Built D P))
      (a a' : J) (x y : Built D P)
      → find verb (register_verbs f o) ≡ some build
      → find verb' (register_verbs f o') ≡ some build'
      → build a ≡ ok x
      → build' a' ≡ ok y
      → (x.key ≡ y.key → subject x.run ≡ subject y.run)
        × (subject x.run ≡ subject y.run → x.key ≡ y.key)
  register_verbs-keys o o' verb verb' build build' a a' x y is is' makes makes' =
      let fx =
        made build a x (find-Fits _ verb build a (register_verbs-AllFit D P E f o) is) makes in
      let fy =
        made build' a' y (find-Fits _ verb' build' a' (register_verbs-AllFit D P E f o') is')
          makes' in
      (
        λ e.
            sym (of_key-key_of (subject x.run))
            ∙ ap of_key (sym fx ∙ e ∙ fy)
            ∙ of_key-key_of (subject y.run),
        λ e. fx ∙ ap key_of e ∙ sym fy,
      )
    where
      made :
          (build : J → Result (VerbError E) (Built D P)) (a : J) (x : Built D P)
          → Fits (build a)
          → build a ≡ ok x
          → x.key ≡ key_of (subject x.run)
      made build a x fit e = subst Fits e fit
