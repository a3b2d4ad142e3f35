-- ===== src/Program/Verbs.antt =====
-- The verbs of gateway/program_runner.hpp, and its `run` and `check`.
use robonode.Prelude.{
  ℕ, zero, suc, ◌+◌, Bool, true, false, not, if◌then◌else◌, Option, none, some, List, [], ◌∷◌,
  length, Text, bytes, text_eq,
}
use robonode.Prelude.Int.{ℤ, pos}
use robonode.Core.Double.{Double, nought, one}
use robonode.Core.Map.{Map, find, contains}
use robonode.Core.Result.{ok, err, Status, success}
use robonode.Core.Action.{◌>>=◌, ◌>>◌, return, fail}
use robonode.Core.Geometry.{Vec3}
use robonode.Program.Station.{AppStep, StationSpec, Numbers, num, pallet_slot}
use robonode.Program.Runner.{
  Detection, Shop, RunnerError, unknown_verb, no_part_detected, no_part_in_view, no_prediction,
  out_of_polls, missed_after, unknown_station, no_place_behaviour, running, nothing_runs, Runner,
  App, Step, call, ask, tell, read, next_slot, report, text, find_station, number_of, report,
}

module _ {ℓ κ} {W : Type ℓ} {S : Type κ} ⦃d : Double W⦄ (nums : Numbers W) (shop : Shop W S)
    (stations : List StationSpec) (cfg : App W) (polls : ℕ) where
  open shop use {
    set_family, set_version, run_motion, move_l, move_to, move_pose, grasp, release, observe, look,
    track, predict, velocity, now, wait, conveyor, deliver,
  }

  unfoldable pub above : Vec3 W → W → Vec3 W
  above target approach = record target { z = d.add target.z approach }

  -- `if (const auto seen = vision_.observe(); seen) target = *seen;`
  unfoldable pub seen_or : Vec3 W → Option (Vec3 W) → Vec3 W
  seen_or target none = target
  seen_or target (some seen) = seen

  unfoldable pub aim : Bool → Vec3 W → Step S (Vec3 W)
  unfolding ask seen_or
  aim true target = ask observe >>= λ seen. return (seen_or target seen)
  aim false target = return target

  unfoldable pub visit : Vec3 W → W → Step S (Unit {0}) → Bool → Step S (Unit {0})
  unfolding call aim above
  visit target approach act re_look = do
    call (move_l (above target approach))
    fresh ← aim re_look target
    call (move_l fresh)
    act
    call (move_l (above fresh approach))

  unfoldable pub visit_seen : W → Option (Vec3 W) → Step S (Unit {0})
  unfolding visit
  visit_seen approach none = fail no_part_detected
  visit_seen approach (some seen) = visit seen approach (call grasp) true

  unfoldable pub pick : AppStep → Step S (Unit {0})
  unfolding visit_seen num ask
  pick s = ask observe >>= visit_seen (num nums s.args (bytes "approach") cfg.approach_m)

  -- The loop, when it has waited for `waited`. The fuel bounds the polls.
  unfoldable pub await_sighting : ℕ → W → W → Step S (Option (Detection W))
  unfolding ask tell
  await_sighting zero waited timeout = fail out_of_polls
  await_sighting (suc f) waited timeout =
      let later = await_sighting f (d.add waited (d.decimal 5 2)) timeout in
      if d.le waited timeout
      then (ask look >>= λ seen. elim seen [
        | some sight ↦ return (some sight)
        | none ↦ tell (wait (d.decimal 5 2)) >>= λ _. later
      ])
      else return none

  -- The end of a try: a grasp that fails is no failure of the verb yet.
  unfoldable pub close_try :
      Vec3 W → Step S (Unit {0}) → S × Status Text → Runner S → Runner S × Status RunnerError
  unfolding call
  close_try up again (world, ok _) r = call (move_l up) (record r { world = world })
  close_try up again (world, err why) r = again (record r { world = world })

  -- A try that aims at `target`; `again` are the tries that follow, with the next lead.
  unfoldable pub reach_for : W → (W → Step S (Unit {0})) → Option (Vec3 W) → Step S (Unit {0})
  unfolding read call above close_try
  reach_for approach again none = fail no_prediction
  reach_for approach again (some target) = do
    started ← read now
    v ← read velocity
    call (move_to (above target approach) v)
    call (move_to target v)
    ended ← read now
    λ r. close_try (above target approach) (again (d.sub ended started)) (grasp r.world) r

  unfoldable pub try_sight :
      W → W → (W → Step S (Unit {0})) → Option (Detection W) → Step S (Unit {0})
  unfolding tell read reach_for
  try_sight approach lead again none = fail no_part_in_view
  try_sight approach lead again (some seen) = do
    tell (track seen.captured_s seen.position)
    target ← read (λ world. predict (d.add (now world) lead) world)
    reach_for approach again target

  -- The loop over the attempts that are left.
  unfoldable pub tries : ℕ → W → W → ℤ → ℕ → W → Step S (Unit {0})
  unfolding await_sighting try_sight
  tries polls approach timeout attempts zero lead = fail (missed_after attempts)
  tries polls approach timeout attempts (suc left) lead =
      await_sighting polls nought timeout
      >>= try_sight approach lead (tries polls approach timeout attempts left)

  unfoldable pub intercept : AppStep → Step S (Unit {0})
  unfolding tries num
  intercept s =
      let attempts = nums.to_int (num nums s.args (bytes "attempts") cfg.intercept_attempts) in
      tries polls (num nums s.args (bytes "approach") cfg.approach_m)
        (num nums s.args (bytes "sight_timeout") cfg.sight_timeout_s) attempts (number_of attempts)
        (num nums s.args (bytes "lead") cfg.intercept_lead_s)

  unfoldable pub slot_index : Option Text → AppStep → Text → Step S ℤ
  unfolding num next_slot
  slot_index none s id = next_slot id >>= λ n. return (pos n)
  slot_index (some named) s id = return (nums.to_int (num nums s.args (bytes "slot") nought))

  unfoldable pub place_at : Option StationSpec → Text → AppStep → Step S (Unit {0})
  unfolding slot_index visit pallet_slot text_eq find num
  place_at none id s = fail (unknown_station id)
  place_at (some station) id s =
      if text_eq station.type (bytes "pallet")
      then (slot_index (find (bytes "slot") s.args) s id >>= λ index.
          visit (pallet_slot nums station index) (num nums s.args (bytes "approach") cfg.approach_m)
            (call release) false)
      else fail (no_place_behaviour id station.type)

  unfoldable pub place : AppStep → Step S (Unit {0})
  unfolding place_at text find_station
  place s = let id = text s.args (bytes "station") [] in place_at (find_station id stations) id s

  -- `verbs_`, as `install_verbs` leaves it: the handler of each verb, in the order of the names. The
  -- names of the arguments are left out.
  unfoldable pub verbs : Map (AppStep → Step S (Unit {0}))
  unfolding call tell text num intercept pick place text_eq
  verbs =
      (
        bytes "conveyor",
        λ s. call (
            conveyor (text s.args (bytes "station") [])
              (not (text_eq (text s.args (bytes "run") (bytes "true")) (bytes "false")))),
      )
      ∷ (bytes "deliver", λ s. call (deliver (text s.args (bytes "station") [])))
      ∷ (bytes "family", λ s. call (set_family (text s.args (bytes "family") [])))
      ∷ (bytes "grasp", λ s. call grasp)
      ∷ (bytes "intercept", λ s. intercept s)
      ∷ (bytes "motion", λ s. call (run_motion (text s.args (bytes "id") [])))
      ∷ (
        bytes "move_l",
        λ s. call (
            move_l (record {
              x = num nums s.args (bytes "x") nought;
              y = num nums s.args (bytes "y") nought;
              z = num nums s.args (bytes "z") nought;
            })),
      )
      ∷ (bytes "move_pose", λ s. call (move_pose s.args))
      ∷ (bytes "pick", λ s. pick s)
      ∷ (bytes "place", λ s. place s)
      ∷ (bytes "release", λ s. call release)
      ∷ (
        bytes "version",
        λ s.
            call (
              set_version (text s.args (bytes "capability") []) (text s.args (bytes "version") [])),
      )
      ∷ (bytes "wait", λ s. tell (wait (num nums s.args (bytes "seconds") one)))
      ∷ []

  -- `if (const auto st = verb->second.run(step); !st.ok()) { report_step({}); … }`
  unfoldable pub note_end : Runner S × Status RunnerError → Runner S × Status RunnerError
  unfolding report
  note_end (r, ok u) = (r, ok u)
  note_end (r, err why) = (report nothing_runs r, err why)

  unfoldable pub run_step :
      Option (AppStep → Step S (Unit {0})) → ℕ → ℕ → AppStep → Step S (Unit {0})
  unfolding note_end report
  run_step none i n s r = (r, err (unknown_verb s.verb))
  run_step (some handler) i n s r = note_end (handler s (report (running i n s) r))

  -- The loop from the step `i` of `n`.
  unfoldable pub run_steps : ℕ → ℕ → List AppStep → Step S (Unit {0})
  unfolding run_step find verbs
  run_steps i n [] = return tt
  run_steps i n (s ∷ steps) = run_step (find s.verb verbs) i n s >> run_steps (i + 1) n steps

  unfoldable pub finish_run : Step S (Unit {0})
  unfolding report
  finish_run r = (report nothing_runs r, success)

  unfoldable pub run : List AppStep → Step S (Unit {0})
  unfolding run_steps finish_run
  run program r = (run_steps 1 (length program) program >> finish_run) (record r { slots = [] })

  unfoldable pub check : List AppStep → Status RunnerError
  unfolding contains verbs
  check [] = success
  check (s ∷ steps) =
      let rest = check steps in if contains s.verb verbs then rest else err (unknown_verb s.verb)
