-- ===== src/Motion/Executive/Counts.antt =====
-- The counts that a run of motion/sync_executive.hpp reports.
use Prim.Native.Nat.add
use robonode.Prelude.{
  if-both, ℕ, zero, suc, ◌+◌, ◌-◌, ◌≤◌, ◌≡◌, refl, Bool, true, false, ◌==◌, List, length, arith,
}
use robonode.Core.Double.{Double}
use robonode.Motion.Executive.{
  Plant, Channel, Exec, any_unsafe, slow_down, drive, cycle, finished, close_run, run_from,
  max_cycles, start, run,
}

module _ {ℓ κ} {W : Type ℓ} {P : Type κ} ⦃d : Double W⦄ (io : Plant W P)
    (duration dt stop_time : W) where
  -- One row of telemetry for each cycle so far, and no more holds or slowed cycles than cycles.
  pub record Counted (c : ℕ) (e : Exec W P) : Type (ℓ ⊔ κ) where
    pub rows_cycles : length e.rows ≡ c
    pub holds : e.stats.safety_hold_cycles ≤ c
    pub cancels : e.stats.cancel_cycles ≤ c

  slow_down-Counted :
      (c : ℕ) (b : Bool) (e : Exec W P)
      → Counted c e
      → let e' = slow_down io duration dt stop_time b e in
        (length e'.rows ≡ c) × (e'.stats.safety_hold_cycles ≤ c) × (e'.stats.cancel_cycles ≤ c + 1)
  unfolding slow_down
  slow_down-Counted c false e v = (v.rows_cycles, v.holds, omega (arith, v.cancels))
  slow_down-Counted c true e v = (v.rows_cycles, v.holds, omega (arith, v.cancels))

  drive-Counted :
      (c : ℕ) (b : Bool) (e : Exec W P)
      → length e.rows ≡ c
      → e.stats.safety_hold_cycles ≤ c
      → e.stats.cancel_cycles ≤ c + 1
      → let e' = drive io duration dt stop_time b e in
        (length e'.rows ≡ c)
        × (e'.stats.safety_hold_cycles ≤ c + 1)
        × (e'.stats.cancel_cycles ≤ c + 1)
  unfolding drive
  drive-Counted c true e r h k = (r, omega arith, k)
  drive-Counted c false e r h k = (r, omega arith, k)

  cycle-Counted :
      (c : ℕ) (b : Bool) (e : Exec W P)
      → Counted c e
      → Counted (c + 1) (cycle io duration dt stop_time c b e)
  unfolding cycle
  cycle-Counted c b e v =
      let e' = slow_down io duration dt stop_time b e in
      let (r, h, k) = slow_down-Counted c b e v in
      let (r', h', k') = drive-Counted c (any_unsafe io 0 e'.channels e'.plant) e' r h k in
      record { rows_cycles = omega arith; holds = h'; cancels = k' }

  -- A run that has ended within `most` cycles.
  pub record Ended (most : ℕ) (e : Exec W P) : Type (ℓ ⊔ κ) where
    pub within : e.stats.cycles ≤ most
    pub counts : Counted e.stats.cycles e

  run_from-Ended :
      (left c : ℕ) (requested : ℕ → Bool) (e : Exec W P)
      → Counted c e
      → Ended (c + left) (run_from io duration dt stop_time left c requested e)
  unfolding run_from close_run
  run_from-Ended zero c requested e v = record {
    within = omega arith;
    counts = record { rows_cycles = v.rows_cycles; holds = v.holds; cancels = v.cancels };
  }
  run_from-Ended (suc left) c requested e v =
      let e' = cycle io duration dt stop_time c (requested c) e in
      let v' = cycle-Counted c (requested c) e v in
      if-both (Ended (c + suc left)) (finished io duration dt stop_time e')
        (if-both (Ended (c + suc left)) (e'.settle_left == 0) (closed e' v') (
          later (
            run_from-Ended left (c + 1) requested (record e' { settle_left = e'.settle_left - 1 })
              (record { rows_cycles = v'.rows_cycles; holds = v'.holds; cancels = v'.cancels }))))
        (later (run_from-Ended left (c + 1) requested e' v'))
    where
      closed :
          (e' : Exec W P)
          → Counted (c + 1) e'
          → Ended (c + suc left) (close_run io duration dt stop_time c e')
      closed e' v' = record {
        within = omega arith;
        counts = record { rows_cycles = v'.rows_cycles; holds = v'.holds; cancels = v'.cancels };
      }

      later : {e' : Exec W P} → Ended (c + 1 + left) e' → Ended (c + suc left) e'
      later n = record { within = omega (arith, n.within); counts = n.counts }

  -- Every run ends within `max_cycles`, whatever the plant does and the stop request reads: it
  -- reports the number of cycles that it made, one row of telemetry for each, and no more cycles
  -- held for safety, nor slowed by a stop request, than cycles.
  pub run-Ended :
      (settle : W) (requested : ℕ → Bool) (channels : List (Channel W)) (p : P)
      → Ended
          (max_cycles io duration dt stop_time settle)
          (run io duration dt stop_time settle requested channels p)
  unfolding run start
  run-Ended settle requested channels p =
      let most = max_cycles io duration dt stop_time settle in
      let e = start io duration dt stop_time settle channels p in
      rw add.zero at (
        run_from-Ended most 0 requested e
          (record { rows_cycles = refl; holds = omega arith; cancels = omega arith }))
