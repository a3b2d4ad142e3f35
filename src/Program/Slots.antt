-- ===== src/Program/Slots.antt =====
-- The order of the steps of gateway/program_runner.hpp, and the slots of its `place` on the grid of
-- celld/station.hpp.
use robonode.Prelude.{
  ℕ, ◌+◌, ◌*◌, ◌/◌, ◌%◌, ◌≡◌, refl, ◌≢◌, ◌∙◌, ap, sym, Bool, true, false, none, some, List, [], ◌∷◌,
  ◌++◌, length, Text, bytes, text_eq, arith,
}
use native.Mathlib.Nat.{mod-add-div'}
use robonode.Prelude.Int.{pos}
use robonode.Core.Double.{Double}
use robonode.Core.Map.{find, assign}
use robonode.Core.Result.{Result, ok, err, Status}
use robonode.Core.Action.{◌>>◌, and_then, Leaves}
use robonode.Core.Geometry.{Vec3}
use robonode.Program.Station.{AppStep, StationSpec, Numbers, grid_cell, num, pallet_slot}
use robonode.Program.Runner.{
  Shop, RunnerError, Runner, App, call, text, find_station, filled, number_of,
}
use robonode.Program.Keeps.{Known, visit-Keeps, call-Keeps}
use robonode.Program.Verbs.{visit, verbs, run_step, run_steps, place}

grid_cell-injective : (a b cols : ℕ) → grid_cell (pos a) cols ≡ grid_cell (pos b) cols → a ≡ b
unfolding grid_cell
grid_cell-injective a b cols e =
    sym (mod-add-div' a cols)
    ∙ (ap (λ k. k + a / cols * cols) (ap (λ c. number_of c.0) e)
        ∙ (ap (λ k. b % cols + k * cols) (ap (λ c. number_of c.1) e) ∙ mod-add-div' b cols))

-- On a grid of any width, two slots that differ have grid cells that differ.
grid_cell-distinct : (a b cols : ℕ) → a ≢ b → grid_cell (pos a) cols ≢ grid_cell (pos b) cols
grid_cell-distinct a b cols n e = n (grid_cell-injective a b cols e)

and_then_assoc {ℓ μ ν ξ} :
    {S : Type ℓ} {E : Type 0} {A : Type μ} {B : Type ν} {C : Type ξ} (f : A → S → S × Result E B)
    (g : B → S → S × Result E C) (x : S × Result E A)
    → and_then g (and_then f x) ≡ and_then (λ a s. and_then g (f a s)) x
unfolding and_then
and_then_assoc f g (s, ok a) = refl
and_then_assoc f g (s, err why) = refl

and_then-cong {ℓ μ ν} :
    {S : Type ℓ} {E : Type 0} {A : Type μ} {B : Type ν} (f g : A → S → S × Result E B)
    (x : S × Result E A)
    → ((a : A) (s : S) → f a s ≡ g a s)
    → and_then f x ≡ and_then g x
unfolding and_then
and_then-cong f g (s, ok a) h = h a s
and_then-cong f g (s, err why) h = refl

module _ {ℓ κ} {W : Type ℓ} {S : Type κ} ⦃d : Double W⦄ (nums : Numbers W) (shop : Shop W S)
    (stations : List StationSpec) (cfg : App W) (polls : ℕ) where
  -- The steps run in their order, and a step that fails ends the run: the loop over two lists one
  -- after the other is the loop over the first, and then, only if that succeeds, the loop over the
  -- second, from the state that the first left.
  run_steps-append :
      (p q : List AppStep) (i n : ℕ) (r : Runner S)
      → run_steps nums shop stations cfg polls i n (p ++ q) r
        ≡ (run_steps nums shop stations cfg polls i n p
              >> run_steps nums shop stations cfg polls (i + length p) n q)
            r
  unfolding run_steps and_then
  run_steps-append [] q i n r =
      ap (λ k. run_steps nums shop stations cfg polls k n q r) (omega arith)
  run_steps-append (s ∷ p) q i n r = rw (moved) (
      and_then-cong (λ _. run_steps nums shop stations cfg polls (i + 1) n (p ++ q)) _ x
        (λ _ t. run_steps-append p q (i + 1) n t)
      ∙ sym (
          and_then_assoc (λ _. run_steps nums shop stations cfg polls (i + 1) n p)
            (λ _. run_steps nums shop stations cfg polls (i + 1 + length p) n q) x))
    where
      x : Runner S × Status RunnerError
      x =
          run_step nums shop stations cfg polls (find s.verb (verbs nums shop stations cfg polls)) i
            n s r

      moved : i + length (s ∷ p) ≡ i + 1 + length p
      moved = omega arith

Leaves-state {ℓ} :
    {S : Type 0} (P : Runner S → Type 0) (F : RunnerError → Type 0) {A : Type ℓ}
    (x : Runner S × Result RunnerError A)
    → Leaves P F x
    → P x.0
Leaves-state P F (r, ok a) h = h
Leaves-state P F (r, err why) h = h.0

module _ {ℓ} {W : Type ℓ} {S : Type 0} ⦃d : Double W⦄ (nums : Numbers W) (shop : Shop W S)
    (stations : List StationSpec) (cfg : App W) (polls : ℕ) (s : AppStep) (r : Runner S)
    (station : StationSpec) where
  visit-slots :
      (target : Vec3 W) (approach : W) (b : Bool) (t : Runner S)
      → (visit nums shop stations cfg polls target approach (call (Shop.release shop)) b t).0.slots
        ≡ t.slots
  visit-slots target approach b t =
      Leaves-state (λ t'. t'.slots ≡ t.slots) Known
        (visit nums shop stations cfg polls target approach (call (Shop.release shop)) b t)
        (visit-Keeps (λ t'. t'.slots ≡ t.slots) (λ _ _ p. p) nums shop stations cfg polls target
          approach (call (Shop.release shop)) b
          (call-Keeps (λ t'. t'.slots ≡ t.slots) (λ _ _ p. p) (Shop.release shop)) t refl)

  abbrev id : Text
  id = text s.args (bytes "station") []

  abbrev taken : Runner S
  taken = record r { slots = assign id (filled (find id r.slots) + 1) r.slots }

  -- A `place` on a pallet that names no slot takes the next one of its station: whether or not the
  -- part is then placed, the count of that station has gone up by one, and no other.
  place-slots :
      let id = text s.args (bytes "station") [] in
      find_station id stations ≡ some station
      → text_eq station.type (bytes "pallet") ≡ true
      → find (bytes "slot") s.args ≡ none
      → (place nums shop stations cfg polls s r).0.slots
        ≡ assign id (filled (find id r.slots) + 1) r.slots
  unfolding place and_then
  place-slots found pallet unnamed =
      rw (found, pallet, unnamed)
        (visit-slots (pallet_slot nums station (pos (filled (find id r.slots))))
          (num nums s.args (bytes "approach") cfg.approach_m) false taken)
