-- ===== src/Program/Keeps.antt =====
-- What the verbs of gateway/program_runner.hpp leave alone.
use robonode.Prelude.{
  ℕ, zero, suc, Bool, true, false, Option, none, some, List, [], Text, bytes, text_eq, if-both, All,
}
use robonode.Prelude.Int.{ℤ}
use robonode.Core.Double.{Double}
use robonode.Core.Map.{Map}
use robonode.Core.Result.{ok, err, Status}
use robonode.Core.Action.{◌>>=◌, return, Leaves, and_then-Leaves}
use robonode.Core.Geometry.{Vec3}
use robonode.Program.Station.{AppStep, StationSpec, Numbers}
use robonode.Program.Runner.{
  Detection, Shop, RunnerError, unknown_verb, raise_text, Runner, App, Step, call, ask, tell, read,
  next_slot, text, find_station,
}
use robonode.Program.Verbs.{
  aim, visit, visit_seen, pick, await_sighting, close_try, reach_for, try_sight, tries, intercept,
  slot_index, place_at, place, verbs,
}

-- An error that is not that of an unknown verb.
abbrev pub Known : RunnerError → Type 0
Known (unknown_verb v) = ⊥
Known _ = Unit

-- `P` of a runner does not depend on the world behind its interfaces.
abbrev pub Stable {κ} : {S : Type κ} → (Runner S → Type κ) → Type κ
Stable {S = S} P = (r : Runner S) (world : S) → P r → P (record r { world = world })

module _ {κ} {S : Type κ} (P : Runner S → Type κ) where
  -- An action that keeps `P`, and whose error is known.
  abbrev pub Keeps {μ} : {A : Type μ} → Step S A → Type κ
  Keeps act = (r : Runner S) → P r → Leaves P Known (act r)

  bind-Keeps {μ ν} :
      {A : Type μ} {B : Type ν} (act : Step S A) (next : A → Step S B)
      → Keeps act
      → ((a : A) → Keeps (next a))
      → Keeps (act >>= next)
  bind-Keeps act next h k r p =
      and_then-Leaves P P Known (act r) next (h r p) (λ s q. q) (λ a s q. k a s q)

  module _ (stable : Stable P) where
    status-Leaves :
        (r : Runner S) (x : S × Status Text)
        → P r
        → Leaves P Known (record r { world = x.0 }, raise_text x.1)
    status-Leaves r (world, ok u) p = stable r world p
    status-Leaves r (world, err why) p = (stable r world p, tt)

    pub call-Keeps : (f : S → S × Status Text) → Keeps (call f)
    unfolding call
    call-Keeps f r p = status-Leaves r (f r.world) p

    ask-Keeps {μ} : {A : Type μ} (f : S → S × A) → Keeps (ask f)
    unfolding ask
    ask-Keeps f r p = stable r (f r.world).0 p

    tell-Keeps : (f : S → S) → Keeps (tell f)
    unfolding tell
    tell-Keeps f r p = stable r (f r.world) p

    read-Keeps {μ} : {A : Type μ} (f : S → A) → Keeps (read f)
    unfolding read
    read-Keeps f r p = p

    module _ {ℓ} {W : Type ℓ} ⦃d : Double W⦄ (nums : Numbers W) (shop : Shop W S)
        (stations : List StationSpec) (cfg : App W) (polls : ℕ) where
      aim-Keeps : (b : Bool) (target : Vec3 W) → Keeps (aim nums shop stations cfg polls b target)
      unfolding aim
      aim-Keeps true target =
          bind-Keeps (ask (Shop.observe shop)) _ (ask-Keeps (Shop.observe shop)) (λ a r p. p)
      aim-Keeps false target = λ r p. p

      pub visit-Keeps :
          (target : Vec3 W) (approach : W) (act : Step S (Unit {0})) (b : Bool)
          → Keeps act
          → Keeps (visit nums shop stations cfg polls target approach act b)
      unfolding visit
      visit-Keeps target approach act b k = bind-Keeps _ _ (call-Keeps _) (λ _.
          bind-Keeps _ _ (aim-Keeps b target)
            (λ fresh. bind-Keeps _ _ (call-Keeps _) (λ _. bind-Keeps _ _ k (λ _. call-Keeps _))))

      visit_seen-Keeps :
          (approach : W) (o : Option (Vec3 W))
          → Keeps (visit_seen nums shop stations cfg polls approach o)
      unfolding visit_seen
      visit_seen-Keeps approach none = λ r p. (p, tt)
      visit_seen-Keeps approach (some seen) = visit-Keeps seen approach _ true (call-Keeps _)

      pick-Keeps : (s : AppStep) → Keeps (pick nums shop stations cfg polls s)
      unfolding pick
      pick-Keeps s =
          bind-Keeps (ask (Shop.observe shop)) _ (ask-Keeps (Shop.observe shop))
            (λ o. visit_seen-Keeps _ o)

      sight-Keeps :
          (o : Option (Detection W)) (later : Step S (Option (Detection W)))
          → Keeps later
          → Keeps (elim o [
            | some sight ↦ return (some sight)
            | none ↦ tell (Shop.wait shop (d.decimal 5 2)) >>= λ _. later
          ])
      sight-Keeps none later k = bind-Keeps _ _ (tell-Keeps _) (λ _. k)
      sight-Keeps (some sight) later k = λ r p. p

      await_sighting-Keeps :
          (f : ℕ) (waited timeout : W)
          → Keeps (await_sighting nums shop stations cfg polls f waited timeout)
      unfolding await_sighting
      await_sighting-Keeps zero waited timeout = λ r p. (p, tt)
      await_sighting-Keeps (suc f) waited timeout =
          if-both (λ (act : Step S (Option (Detection W))). Keeps act) (d.le waited timeout)
            (bind-Keeps (ask (Shop.look shop)) _ (ask-Keeps (Shop.look shop)) (λ o.
              sight-Keeps o _ (await_sighting-Keeps f (d.add waited (d.decimal 5 2)) timeout)))
            (λ r p. p)

      close_try-Leaves :
          (up : Vec3 W) (again : Step S (Unit {0})) (x : S × Status Text)
          → Keeps again
          → Keeps (close_try nums shop stations cfg polls up again x)
      unfolding close_try
      close_try-Leaves up again (world, ok u) k =
          λ r p. call-Keeps (Shop.move_l shop up) _ (stable r world p)
      close_try-Leaves up again (world, err why) k = λ r p. k _ (stable r world p)

      reach_for-Keeps :
          (approach : W) (again : W → Step S (Unit {0})) (o : Option (Vec3 W))
          → ((lead : W) → Keeps (again lead))
          → Keeps (reach_for nums shop stations cfg polls approach again o)
      unfolding reach_for
      reach_for-Keeps approach again none k = λ r p. (p, tt)
      reach_for-Keeps approach again (some target) k =
          bind-Keeps _ _ (read-Keeps (Shop.now shop)) (λ started.
            bind-Keeps _ _ (read-Keeps (Shop.velocity shop)) (λ v.
              bind-Keeps _ _ (call-Keeps _) (λ _. bind-Keeps _ _ (call-Keeps _) (λ _.
                bind-Keeps _ _ (read-Keeps (Shop.now shop))
                  (λ ended r p. close_try-Leaves _ _ _ (k _) r p)))))

      try_sight-Keeps :
          (approach lead : W) (again : W → Step S (Unit {0})) (o : Option (Detection W))
          → ((next : W) → Keeps (again next))
          → Keeps (try_sight nums shop stations cfg polls approach lead again o)
      unfolding try_sight
      try_sight-Keeps approach lead again none k = λ r p. (p, tt)
      try_sight-Keeps approach lead again (some seen) k = bind-Keeps _ _ (tell-Keeps _) (λ _.
          bind-Keeps _ _
            (read-Keeps (λ world. Shop.predict shop (d.add (Shop.now shop world) lead) world))
            (λ target. reach_for-Keeps approach again target k))

      tries-Keeps :
          (approach timeout : W) (attempts : ℤ) (left : ℕ) (lead : W)
          → Keeps (tries nums shop stations cfg polls polls approach timeout attempts left lead)
      unfolding tries
      tries-Keeps approach timeout attempts zero lead = λ r p. (p, tt)
      tries-Keeps approach timeout attempts (suc left) lead =
          bind-Keeps _ _ (await_sighting-Keeps polls _ timeout)
            (λ o. try_sight-Keeps approach lead _ o (tries-Keeps approach timeout attempts left))

      intercept-Keeps : (s : AppStep) → Keeps (intercept nums shop stations cfg polls s)
      unfolding intercept
      intercept-Keeps s = tries-Keeps _ _ _ _ _

-- What a `P` that depends on neither the world nor the slots needs more.
abbrev pub SlotsStable {κ} : {S : Type κ} → (Runner S → Type κ) → Type κ
SlotsStable {S = S} P = (r : Runner S) (slots : Map ℕ) → P r → P (record r { slots = slots })

module _ {ℓ κ} {W : Type ℓ} {S : Type κ} ⦃d : Double W⦄ (nums : Numbers W) (shop : Shop W S)
    (stations : List StationSpec) (cfg : App W) (polls : ℕ) (P : Runner S → Type κ)
    (stable : Stable P) (slots_stable : SlotsStable P) where
  slot_index-Keeps :
      (o : Option Text) (s : AppStep) (id : Text)
      → Keeps P (slot_index nums shop stations cfg polls o s id)
  unfolding slot_index next_slot
  slot_index-Keeps none s id =
      bind-Keeps P (next_slot id) _ (λ r p. slots_stable r _ p) (λ n r p. p)
  slot_index-Keeps (some named) s id = λ r p. p

  place_at-Keeps :
      (o : Option StationSpec) (id : Text) (s : AppStep)
      → Keeps P (place_at nums shop stations cfg polls o id s)
  unfolding place_at
  place_at-Keeps none id s = λ r p. (p, tt)
  place_at-Keeps (some station) id s =
      if-both (λ (act : Step S (Unit {0})). Keeps P act) (text_eq station.type (bytes "pallet"))
        (bind-Keeps P _ _ (slot_index-Keeps _ s id) (λ index.
          visit-Keeps P stable nums shop stations cfg polls _ _ _ false (call-Keeps P stable _)))
        (λ r p. (p, tt))

  place-Keeps : (s : AppStep) → Keeps P (place nums shop stations cfg polls s)
  unfolding place
  place-Keeps s =
      let id = text s.args (bytes "station") [] in place_at-Keeps (find_station id stations) id s

  -- All the handlers of the verb table.
  pub verbs-Keeps : All (λ e. (s : AppStep) → Keeps P (e.1 s)) (verbs nums shop stations cfg polls)
  unfolding verbs
  verbs-Keeps = (
    λ s. call-Keeps P stable _,
    (
      λ s. call-Keeps P stable _,
      (
        λ s. call-Keeps P stable _,
        (
          λ s. call-Keeps P stable _,
          (
            intercept-Keeps P stable nums shop stations cfg polls,
            (
              λ s. call-Keeps P stable _,
              (
                λ s. call-Keeps P stable _,
                (
                  λ s. call-Keeps P stable _,
                  (
                    pick-Keeps P stable nums shop stations cfg polls,
                    (
                      place-Keeps,
                      (
                        λ s. call-Keeps P stable _,
                        (λ s. call-Keeps P stable _, (λ s. tell-Keeps P stable _, tt)),
                      ),
                    ),
                  ),
                ),
              ),
            ),
          ),
        ),
      ),
    ),
  )
