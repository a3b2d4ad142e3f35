-- ===== src/Motion/Tests.antt =====
-- Concrete runs of the motion layer over whole numbers, and the theorems at concrete inputs.
use robonode.Prelude.{
  arith, ℕ, ◌≡◌, refl, ◌↔◌, true, false, none, some, List, [], ◌∷◌, map, All, bytes,
}
use robonode.Prelude.Int.{pos, negsuc}
use robonode.Core.Result.{success}
use robonode.Core.Double.{nought}
use robonode.Core.Double.Whole.{Whole, whole, Whole-IsOrdered}
use robonode.Motion.Limits.{AxisLimits, normal, fault, IsTravel}
use robonode.Motion.Governor.{Governor, dp_max, apply_all}
use robonode.Motion.Validator.{MotionSettings, check}
use robonode.Motion.Validator.Accepts.{IsTrajectory, longest, check-eq-ok}
use robonode.Motion.Executive.{Plant, Channel, Exec, cycle, max_cycles, run}
use robonode.Motion.Executive.Counts.{Ended, run-Ended}
use robonode.Motion.Executive.Safety.{RowsWithin, run-RowsWithin, cycle_unsafe}

abbrev num : ℕ → Whole
num n = some (pos n)

abbrev rail : AxisLimits Whole
rail = record {
  position_min = num 0;
  position_max = num 100;
  velocity_max = num 30;
  acceleration_max = num 10;
  jerk_max = num 0;
}

abbrev governor : Governor Whole
governor = record {
  limits = rail;
  prev = num 50;
  position_clamps = 0;
  velocity_clamps = 0;
  rejected_setpoints = 0;
}

rail-IsTravel : IsTravel rail
rail-IsTravel = record { finite_min = refl; finite_max = refl; ordered = refl }

-- A setpoint in reach, one too far, one outside the travel, and NaN.
abbrev setpoints : List (Whole × Whole)
setpoints = (num 60, num 1) ∷ (num 100, num 1) ∷ (some (negsuc 400), num 9) ∷ (none, num 1) ∷ []

governed : apply_all setpoints governor ≡ num 60 ∷ num 90 ∷ num 0 ∷ num 0 ∷ []
unfolding apply_all
governed = refl

abbrev settings : MotionSettings Whole
settings = record { limit_tolerance = num 0; max_duration_s = num 60 }

abbrev there_and_back : List (List Whole)
there_and_back = (num 0 ∷ num 90 ∷ num 0 ∷ []) ∷ []

check_accepts : check settings there_and_back (rail ∷ []) (bytes "rail" ∷ []) ≡ success
unfolding check
check_accepts = refl

check-eq-ok_example : (check settings there_and_back (rail ∷ []) [] ≡ success) ↔ (
    IsTrajectory settings there_and_back (rail ∷ [])
    × (whole.lt (num 60) (longest settings there_and_back (rail ∷ []) nought) ≡ false))
check-eq-ok_example = check-eq-ok settings there_and_back (rail ∷ []) []

-- One axis that goes where it is told, towards 80; it reports a fault where `P` is out of place.
abbrev ideal : Plant Whole Whole
ideal = record {
  read = λ i p. record { position = p; velocity = num 0; safety = normal };
  next = λ i t dt p. (record { position = num 80; velocity = num 0; acceleration = num 0 }, p);
  command = λ i target dt p. (target.position, p);
  reset_controller = λ i x p. p;
  write_setpoint = λ i x p. x;
  step_all = λ dt p. p;
}

abbrev broken : Plant Whole Whole
broken = record ideal { read = λ i p. record { position = p; velocity = num 0; safety = fault } }

abbrev channels : List (Channel Whole)
channels =
    record {
      governor = governor;
      tgt = record { position = num 0; velocity = num 0; acceleration = num 0 };
      cmd = num 0;
    }
    ∷ []

run-Ended_example :
    Ended ideal
      (num 3)
      (num 1)
      (num 1)
      (max_cycles ideal (num 3) (num 1) (num 1) (num 0))
      (run ideal (num 3) (num 1) (num 1) (num 0) (λ c. false) channels (num 50))
run-Ended_example = run-Ended ideal (num 3) (num 1) (num 1) (num 0) (λ c. false) channels (num 50)

run-RowsWithin_example :
    All
      (RowsWithin Whole-IsOrdered ideal (num 3) (num 1) (num 1) (rail ∷ []))
      (run ideal (num 3) (num 1) (num 1) (num 0) (λ c. false) channels (num 50)).rows
unfolding dp_max
run-RowsWithin_example =
    run-RowsWithin Whole-IsOrdered ideal (num 3) (num 1) (num 1) (rail ∷ []) (num 0) (λ c. false)
      channels (num 50) (rail-IsTravel, refl, tt) (λ i j x p. refl) (refl, (refl, refl), tt)

abbrev at_start : Exec Whole Whole
at_start = record {
  plant = num 50;
  channels = channels;
  path_s = num 1;
  path_rate = num 1;
  settle_left = 1;
  stats = record { cycles = 0; safety_hold_cycles = 0; cancel_cycles = 0; stopped_early = false };
  rows = [];
}

cycle_unsafe_example :
    let e = cycle broken (num 3) (num 1) (num 1) 0 true at_start in
    (e.plant ≡ broken.step_all (num 1) (broken.write_setpoint 0 (num 50) at_start.plant))
    × (map (λ (x : Channel Whole). x.cmd) e.channels ≡ num 50 ∷ [])
    × (map (λ (x : Channel Whole). x.governor) e.channels ≡ governor ∷ [])
    × (e.path_s ≡ num 1)
    × (e.stats.safety_hold_cycles ≡ 1)
cycle_unsafe_example =
    cycle_unsafe Whole-IsOrdered broken (num 3) (num 1) (num 1) 0 true at_start 0 (omega arith)
      (λ h. ground (arith, h))
