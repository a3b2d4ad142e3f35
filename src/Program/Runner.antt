-- ===== src/Program/Runner.antt =====
-- gateway/program_runner.hpp. Everything that it reaches through a reference or a callback is behind
-- an interface of the environment (`Shop`); the log is left out.
use robonode.Prelude.{ℕ, ◌+◌, Bool, if◌then◌else◌, Option, none, some, List, [], ◌∷◌, Text, text_eq}
use robonode.Prelude.Int.{ℤ, pos, negsuc}
use robonode.Core.Map.{Map, find, assign}
use robonode.Core.Result.{ok, err, Status, success}
use robonode.Core.Action.{Action}
use robonode.Core.Geometry.{Vec3}
use robonode.Program.Station.{AppStep, StationSpec}

pub record Detection {ℓ} (W : Type ℓ) : Type ℓ where
  pub position : Vec3 W
  pub captured_s : W

-- The motion service, the vision and the tracking capabilities, the tool, and the callbacks. A
-- message of theirs is a text. `move_pose` has the arguments of its step: the quaternion that the
-- runner makes of them is left to it.
pub record Shop {ℓ κ} (W : Type ℓ) (S : Type κ) : Type (ℓ ⊔ κ) where
  pub set_family : Text → S → S × Status Text
  pub set_version : Text → Text → S → S × Status Text
  pub run_motion : Text → S → S × Status Text
  pub move_l : Vec3 W → S → S × Status Text
  pub move_to : Vec3 W → Vec3 W → S → S × Status Text
  pub move_pose : Map Text → S → S × Status Text
  pub grasp : S → S × Status Text
  pub release : S → S × Status Text
  pub observe : S → S × Option (Vec3 W)
  pub look : S → S × Option (Detection W)
  pub track : W → Vec3 W → S → S
  pub predict : W → S → Option (Vec3 W)
  pub velocity : S → Vec3 W
  pub now : S → W
  pub wait : W → S → S
  pub conveyor : Text → Bool → S → S × Status Text
  pub deliver : Text → S → S × Status Text

-- The messages. `out_of_polls` is the model's own: the wait for a sighting is bounded.
pub data RunnerError : Type 0 where
  unknown_verb : Text → RunnerError
  no_part_detected no_part_in_view no_prediction out_of_polls : RunnerError
  missed_after : ℤ → RunnerError
  unknown_station : Text → RunnerError
  no_place_behaviour : Text → Text → RunnerError
  raised : Text → RunnerError

-- What is reported to `on_step_`: the step `i` of `n`, or that there is none.
pub data Report : Type 0 where
  running : ℕ → ℕ → AppStep → Report
  nothing_runs : Report

-- What the runner changes: the world behind its interfaces, the slots that it has filled, and its
-- reports, newest first.
pub record Runner {κ} (S : Type κ) : Type κ where
  pub world : S
  pub slots : Map ℕ
  pub reports : List Report

-- `Settings::App`
pub record App {ℓ} (W : Type ℓ) : Type ℓ where
  pub approach_m : W
  pub intercept_attempts : W
  pub intercept_lead_s : W
  pub sight_timeout_s : W

abbrev pub Step {ℓ μ} : Type ℓ → Type μ → Type (ℓ ⊔ μ)
Step S A = Action (Runner S) RunnerError A

abbrev pub raise_text : Status Text → Status RunnerError
raise_text (ok u) = ok u
raise_text (err why) = err (raised why)

abbrev pub filled : Option ℕ → ℕ
filled none = 0
filled (some n) = n

module _ {κ} {S : Type κ} where
  -- A call that returns a `Status`, one that returns a value, and one that returns nothing.
  unfoldable pub call : (S → S × Status Text) → Step S (Unit {0})
  call f r = let (world, st) = f r.world in (record r { world = world }, raise_text st)

  unfoldable pub ask {μ} : {A : Type μ} → (S → S × A) → Step S A
  ask f r = let (world, a) = f r.world in (record r { world = world }, ok a)

  unfoldable pub tell : (S → S) → Step S (Unit {0})
  tell f r = (record r { world = f r.world }, success)

  unfoldable pub read {μ} : {A : Type μ} → (S → A) → Step S A
  read f r = (r, ok (f r.world))

  -- `slots_[id]++`
  unfoldable pub next_slot : Text → Step S ℕ
  unfolding find assign
  next_slot id r =
      let n = filled (find id r.slots) in (record r { slots = assign id (n + 1) r.slots }, ok n)

  unfoldable pub report : Report → Runner S → Runner S
  report what r = record r { reports = what ∷ r.reports }

-- `text`
unfoldable pub text : Map Text → Text → Text → Text
unfolding find
text args key fallback = elim (find key args) [ none ↦ fallback | some value ↦ value ]

unfoldable pub find_station : Text → List StationSpec → Option StationSpec
unfolding text_eq
find_station id [] = none
find_station id (s ∷ stations) = if text_eq s.id id then some s else find_station id stations

abbrev pub number_of : ℤ → ℕ
number_of (pos n) = n
number_of (negsuc n) = 0
