-- ===== src/Program/Contract.antt =====
-- What gateway/program_runner.hpp promises: a checked program meets no unknown verb.
use robonode.Prelude.{
  ℕ, ◌+◌, ◌≡◌, refl, ◌≢◌, true, Option, none, some, List, [], ◌∷◌, length, Text, text_eq, arith,
  All, if-both,
}
use mathlib.Core.Path.{subst}
use robonode.Core.Double.{Double}
use robonode.Core.Map.{Map, find, contains}
use robonode.Core.Result.{ok, err, Status, success}
use robonode.Core.Action.{Leaves, and_then-Leaves}
use robonode.Program.Station.{AppStep, StationSpec, Numbers}
use robonode.Program.Runner.{Shop, RunnerError, unknown_verb, Runner, App, Step}
use robonode.Program.Keeps.{Known, Keeps, verbs-Keeps}
use robonode.Program.Verbs.{verbs, note_end, run_step, run_steps, run, check}

-- `P` of the value, if there is one.
abbrev Holds {ℓ κ} : {V : Type ℓ} → (V → Type κ) → Option V → Type κ
Holds P none = Unit
Holds P (some v) = P v

find-All {ℓ κ} :
    {V : Type ℓ} (P : V → Type κ) (k : Text) (m : Map V) → All (λ e. P e.1) m → Holds P (find k m)
unfolding find
find-All P k [] a = tt
find-All P k ((k', w) ∷ m) (p, a) = if-both (λ o. Holds P o) (text_eq k k') p (find-All P k m a)

contains-find {ℓ} : {V : Type ℓ} (k : Text) (m : Map V) → contains k m ≡ true → find k m ≢ none
unfolding contains
contains-find k m h e = ground arith

-- A status whose error, if it has one, is known.
abbrev StatusKnown : Status RunnerError → Type 0
StatusKnown (ok u) = Unit
StatusKnown (err why) = Known why

module _ {ℓ κ} {W : Type ℓ} {S : Type κ} ⦃d : Double W⦄ (nums : Numbers W) (shop : Shop W S)
    (stations : List StationSpec) (cfg : App W) (polls : ℕ) where
  abbrev Any : Runner S → Type κ
  Any r = Unit

  note_end-Leaves :
      (x : Runner S × Status RunnerError)
      → Leaves Any Known x
      → Leaves Any Known (note_end nums shop stations cfg polls x)
  unfolding note_end
  note_end-Leaves (r, ok u) h = h
  note_end-Leaves (r, err why) h = h

  abbrev table : Map (AppStep → Step S (Unit {0}))
  table = verbs nums shop stations cfg polls

  run_step-Known :
      (o : Option (AppStep → Step S (Unit {0}))) (i n : ℕ) (s : AppStep) (r : Runner S)
      → Holds (λ handler. (t : AppStep) → Keeps Any (handler t)) o
      → o ≢ none
      → Leaves Any Known (run_step nums shop stations cfg polls o i n s r)
  unfolding run_step
  run_step-Known none i n s r h k = absurd (k refl)
  run_step-Known (some handler) i n s r h k = note_end-Leaves _ (h s _ tt)

  check-step :
      (s : AppStep) (steps : List AppStep)
      → check nums shop stations cfg polls (s ∷ steps) ≡ success
      → (contains s.verb table ≡ true) × (check nums shop stations cfg polls steps ≡ success)
  unfolding check
  check-step s steps h = ground arith

  run_steps-Known :
      (i n : ℕ) (steps : List AppStep) (r : Runner S)
      → check nums shop stations cfg polls steps ≡ success
      → Leaves Any Known (run_steps nums shop stations cfg polls i n steps r)
  unfolding run_steps
  run_steps-Known i n [] r h = tt
  run_steps-Known i n (s ∷ steps) r h =
      let (c, rest) = check-step s steps h in
      and_then-Leaves Any Any Known
        (run_step nums shop stations cfg polls (find s.verb table) i n s r) _
        (run_step-Known (find s.verb table) i n s r
          (find-All _ s.verb table
            (verbs-Keeps nums shop stations cfg polls Any (λ _ _ _. tt) (λ _ _ _. tt)))
          (contains-find s.verb table c))
        (λ _ _. tt) (λ u s' _. run_steps-Known (i + 1) n steps s' rest)

  run-Leaves :
      (program : List AppStep) (r : Runner S)
      → check nums shop stations cfg polls program ≡ success
      → Leaves Any Known (run nums shop stations cfg polls program r)
  unfolding run
  run-Leaves program r h =
      and_then-Leaves Any Any Known
        (run_steps nums shop stations cfg polls 1 (length program) program
          (record r { slots = [] }))
        _ (run_steps-Known 1 (length program) program _ h) (λ _ _. tt) (λ _ _ _. tt)

  -- A program that `check` accepts never stops at an unknown verb, whatever the world behind the
  -- verbs does and whichever step fails.
  pub check-run :
      (program : List AppStep) (r : Runner S) (verb : Text)
      → check nums shop stations cfg polls program ≡ success
      → (run nums shop stations cfg polls program r).1 ≢ err (unknown_verb verb)
  check-run program r verb h e =
      refuted (run nums shop stations cfg polls program r) e (run-Leaves program r h)
    where
      refuted :
          (x : Runner S × Status RunnerError)
          → x.1 ≡ err (unknown_verb verb)
          → Leaves Any Known x
          → ⊥
      refuted (r', ok u) e l = ground arith
      refuted (r', err why) e l = subst (λ st. StatusKnown st) e l.1
