-- ===== src/Program/Tests.antt =====
-- Concrete programs, and the theorems at concrete inputs.
use robonode.Prelude.{ℕ, ◌+◌, ◌≡◌, refl, ◌≢◌, Option, some, [], ◌∷◌, bytes}
use robonode.Prelude.Int.{ℤ, pos}
use robonode.Core.Double.Whole.{whole}
use robonode.Core.Result.{err, success}
use robonode.Core.Action.{and_then}
use robonode.Core.Geometry.{Vec3}
use robonode.Program.Station.{AppStep, StationSpec, Numbers}
use robonode.Program.Runner.{Shop, unknown_verb, raised, Runner, App}
use robonode.Program.Verbs.{run, check}
use robonode.Program.Contract.{check-run}

-- Every text is read as 0.
abbrev nums : Numbers (Option ℤ)
nums = record { strtod = λ t. some (pos 0); to_int = λ w. pos 0 }

abbrev part : Vec3 (Option ℤ)
part = record { x = some (pos 1); y = some (pos 2); z = some (pos 0) }

-- A cell that counts its moves, and whose tool never closes.
abbrev shop : Shop (Option ℤ) ℕ
shop = record {
  set_family = λ f n. (n, success);
  set_version = λ c v n. (n, success);
  run_motion = λ id n. (n + 1, success);
  move_l = λ target n. (n + 1, success);
  move_to = λ target v n. (n + 1, success);
  move_pose = λ args n. (n + 1, success);
  grasp = λ n. (n, err (bytes "slipped"));
  release = λ n. (n, success);
  observe = λ n. (n, some part);
  look = λ n. (n, some (record { position = part; captured_s = some (pos n) }));
  track = λ t position n. n;
  predict = λ t n. some part;
  velocity = λ n. part;
  now = λ n. some (pos n);
  wait = λ t n. n + 1;
  conveyor = λ id on n. (n, success);
  deliver = λ id n. (n, success);
}

abbrev pallet : StationSpec
pallet = record { id = bytes "out"; type = bytes "pallet"; config = [] }

abbrev cfg : App (Option ℤ)
cfg = record {
  approach_m = some (pos 5);
  intercept_attempts = some (pos 4);
  intercept_lead_s = some (pos 2);
  sight_timeout_s = some (pos 4);
}

abbrev fresh_runner : Runner ℕ
fresh_runner = record { world = 0; slots = []; reports = [] }

abbrev put : AppStep
put = record { verb = bytes "place"; args = (bytes "station", bytes "out") ∷ [] }

abbrev get : AppStep
get = record { verb = bytes "pick"; args = [] }

abbrev dance : AppStep
dance = record { verb = bytes "dance"; args = [] }

-- Two parts placed: six moves, and two slots taken.
run_puts :
    let r = run nums shop (pallet ∷ []) cfg 3 (put ∷ put ∷ []) fresh_runner in
    (r.0.world ≡ 6) × (r.0.slots ≡ (bytes "out", 2) ∷ []) × (r.1 ≡ success)
unfolding run and_then
run_puts = (refl, refl, refl)

-- The pick fails at the grasp, after two moves, and nothing more runs.
run_pick :
    let r = run nums shop (pallet ∷ []) cfg 3 (get ∷ put ∷ []) fresh_runner in
    (r.0.world ≡ 2) × (r.1 ≡ err (raised (bytes "slipped")))
unfolding run and_then
run_pick = (refl, refl)

run_dance :
    (run nums shop (pallet ∷ []) cfg 3 (dance ∷ []) fresh_runner).1
    ≡ err (unknown_verb (bytes "dance"))
unfolding run and_then
run_dance = refl

check-run_example :
    (run nums shop (pallet ∷ []) cfg 3 (get ∷ put ∷ []) fresh_runner).1
    ≢ err (unknown_verb (bytes "dance"))
unfolding check
check-run_example =
    check-run nums shop (pallet ∷ []) cfg 3 (get ∷ put ∷ []) fresh_runner (bytes "dance") refl
