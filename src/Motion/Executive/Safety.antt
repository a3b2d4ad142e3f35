-- ===== src/Motion/Executive/Safety.antt =====
-- What a run of motion/sync_executive.hpp may put out: the governors' guarantee, and the hold.
use mathlib.Core.Path.{subst}
use robonode.Prelude.{
  map, ap, ◌-◌, if-both, ℕ, zero, suc, ◌+◌, ◌<◌, length, arith, ◌≢◌, ◌≡◌, refl, sym, Bool, true,
  false, ◌==◌, List, [], ◌∷◌, All,
}
use robonode.Core.Double.{Double, IsOrdered, nought, ◌≼◌}
use robonode.Motion.Limits.{
  AxisLimits, IsTravel, Within, SafetyState, normal, reduced, protective_stop, e_stop, fault,
}
use robonode.Motion.Governor.{Governor, dp_max, apply, held_position}
use robonode.Motion.Governor.Envelope.{apply-Keeps}
use robonode.Motion.Executive.{
  Plant, TelemetryRow, Channel, Exec, prepare, is_normal, any_unsafe, observe, follow, follow_all,
  hold, hold_all, read_all, slow_down, drive, cycle, finished, close_run, run_from, max_cycles,
  start, run,
}

module _ {ℓ κ} {W : Type ℓ} {P : Type κ} ⦃d : Double W⦄ (laws : IsOrdered W) (io : Plant W P)
    (duration dt stop_time : W) where
  -- The travels are not empty, and the steps not negative.
  abbrev pub Travels : List (AxisLimits W) → Type ℓ
  Travels [] = Unit
  Travels (l ∷ ls) = IsTravel l × (nought ≼ dp_max l dt) × Travels ls

  -- Each governor has the limits of its axis, and its last output lies within them.
  abbrev pub Ready : List (AxisLimits W) → List (Channel W) → Type ℓ
  Ready [] [] = Unit
  Ready [] (c ∷ cs) = Unit {ℓ} × ⊥
  Ready (l ∷ ls) [] = Unit {ℓ} × ⊥
  Ready (l ∷ ls) (c ∷ cs) = (c.governor.limits ≡ l) × Within l c.governor.prev × Ready ls cs

  -- Each axis was commanded a position within its limits.
  abbrev pub Commanded : List (AxisLimits W) → List (Channel W) → Type 0
  Commanded [] [] = Unit
  Commanded [] (c ∷ cs) = ⊥
  Commanded (l ∷ ls) [] = ⊥
  Commanded (l ∷ ls) (c ∷ cs) = Within l c.cmd × Commanded ls cs

  -- Each governed position in a cycle's telemetry lies within the limits of its axis.
  abbrev pub RowsWithin : List (AxisLimits W) → List (TelemetryRow W) → Type 0
  RowsWithin [] [] = Unit
  RowsWithin [] (r ∷ rs) = ⊥
  RowsWithin (l ∷ ls) [] = ⊥
  RowsWithin (l ∷ ls) (r ∷ rs) = Within l r.governed_position × RowsWithin ls rs

  apply_lem :
      (l : AxisLimits W) (g : Governor W) (setpoint : W)
      → g.limits ≡ l
      → IsTravel l
      → nought ≼ dp_max l dt
      → Within l g.prev
      → ((apply setpoint dt g).0.limits ≡ l)
        × Within l (apply setpoint dt g).0.prev
        × Within l (apply setpoint dt g).1.position
  apply_lem l g setpoint same =
      subst
        (λ l.
          IsTravel l
          → nought ≼ dp_max l dt
          → Within l g.prev
          → ((apply setpoint dt g).0.limits ≡ l)
            × Within l (apply setpoint dt g).0.prev
            × Within l (apply setpoint dt g).1.position)
        same
        λ t p w. let ((kept, w'), now) = apply-Keeps laws g setpoint dt t p w in (kept, w', now)

  follow_all-Ready :
      (ls : List (AxisLimits W)) (i : ℕ) (path_s : W) (cs : List (Channel W)) (p : P)
      → Travels ls
      → Ready ls cs
      → let cs' = (follow_all io i path_s dt cs p).0 in Ready ls cs' × Commanded ls cs'
  unfolding follow_all follow
  follow_all-Ready [] i path_s [] p t r = (tt, tt)
  follow_all-Ready [] i path_s (c ∷ cs) p t r = absurd r.1
  follow_all-Ready (l ∷ ls) i path_s [] p t r = absurd r.1
  follow_all-Ready (l ∷ ls) i path_s (c ∷ cs) p (t, pos, ts) (same, w, rs) =
      let (kept, w', now) = apply_lem l c.governor _ same t pos w in
      let (rs', ds) = follow_all-Ready ls (i + 1) path_s cs _ ts rs in ((kept, w', rs'), (now, ds))

  hold_all-Ready :
      (ls : List (AxisLimits W)) (i : ℕ) (cs : List (Channel W)) (p : P)
      → Ready ls cs
      → let cs' = (hold_all io i cs p).0 in Ready ls cs' × Commanded ls cs'
  unfolding hold_all hold held_position
  hold_all-Ready [] i [] p r = (tt, tt)
  hold_all-Ready [] i (c ∷ cs) p r = absurd r.1
  hold_all-Ready (l ∷ ls) i [] p r = absurd r.1
  hold_all-Ready (l ∷ ls) i (c ∷ cs) p (same, w, rs) =
      let (rs', ds) = hold_all-Ready ls (i + 1) cs _ rs in ((same, w, rs'), (w, ds))

  read_all-RowsWithin :
      (ls : List (AxisLimits W)) (i : ℕ) (t : W) (cs : List (Channel W)) (p : P)
      → Commanded ls cs
      → RowsWithin ls (read_all io i t cs p)
  unfolding read_all
  read_all-RowsWithin [] i t [] p c = tt
  read_all-RowsWithin [] i t (x ∷ cs) p c = absurd c
  read_all-RowsWithin (l ∷ ls) i t [] p c = absurd c
  read_all-RowsWithin (l ∷ ls) i t (x ∷ cs) p (w, c) = (w, read_all-RowsWithin ls (i + 1) t cs p c)

  -- What each cycle keeps.
  pub record Inv (ls : List (AxisLimits W)) (e : Exec W P) : Type ℓ where
    pub ready : Ready ls e.channels
    pub rows_within : All (RowsWithin ls) e.rows

  slow_down-Inv :
      (ls : List (AxisLimits W)) (b : Bool) (e : Exec W P)
      → Inv ls e
      → Inv ls (slow_down io duration dt stop_time b e)
  unfolding slow_down
  slow_down-Inv ls false e v = v
  slow_down-Inv ls true e v = record { ready = v.ready; rows_within = v.rows_within }

  drive-Inv :
      (ls : List (AxisLimits W)) (b : Bool) (e : Exec W P)
      → Travels ls
      → Inv ls e
      → Inv ls (drive io duration dt stop_time b e)
        × Commanded ls (drive io duration dt stop_time b e).channels
  unfolding drive
  drive-Inv ls true e t v =
      let (r, c) = hold_all-Ready ls 0 e.channels e.plant v.ready in
      (record { ready = r; rows_within = v.rows_within }, c)
  drive-Inv ls false e t v =
      let (r, c) = follow_all-Ready ls 0 e.path_s e.channels e.plant t v.ready in
      (record { ready = r; rows_within = v.rows_within }, c)

  cycle-Inv :
      (ls : List (AxisLimits W)) (c : ℕ) (b : Bool) (e : Exec W P)
      → Travels ls
      → Inv ls e
      → Inv ls (cycle io duration dt stop_time c b e)
  unfolding cycle
  cycle-Inv ls c b e t v =
      let e' = slow_down io duration dt stop_time b e in
      let (v', k) =
        drive-Inv ls (any_unsafe io 0 e'.channels e'.plant) e' t (slow_down-Inv ls b e v) in
      record { ready = v'.ready; rows_within = (read_all-RowsWithin ls 0 _ _ _ k, v'.rows_within) }

  run_from-Inv :
      (ls : List (AxisLimits W)) (left c : ℕ) (requested : ℕ → Bool) (e : Exec W P)
      → Travels ls
      → Inv ls e
      → Inv ls (run_from io duration dt stop_time left c requested e)
  unfolding run_from close_run
  run_from-Inv ls zero c requested e t v = record { ready = v.ready; rows_within = v.rows_within }
  run_from-Inv ls (suc left) c requested e t v =
      let e' = cycle io duration dt stop_time c (requested c) e in
      let v' = cycle-Inv ls c (requested c) e t v in
      if-both (Inv ls) (finished io duration dt stop_time e')
        (if-both (Inv ls) (e'.settle_left == 0)
          (record { ready = v'.ready; rows_within = v'.rows_within })
          (run_from-Inv ls left (c + 1) requested (record e' { settle_left = e'.settle_left - 1 }) t
            (record { ready = v'.ready; rows_within = v'.rows_within })))
        (run_from-Inv ls left (c + 1) requested e' t v')

  -- Each axis starts with the limits of its governor, at a position within them.
  abbrev pub Starts : ℕ → List (AxisLimits W) → List (Channel W) → P → Type ℓ
  Starts i [] [] p = Unit
  Starts i [] (c ∷ cs) p = Unit {ℓ} × ⊥
  Starts i (l ∷ ls) [] p = Unit {ℓ} × ⊥
  Starts i (l ∷ ls) (c ∷ cs) p =
      (c.governor.limits ≡ l) × Within l (io.read i p).position × Starts (i + 1) ls cs p

  -- A controller's reset does not move an axis.
  abbrev pub Unmoved : Type (ℓ ⊔ κ)
  Unmoved = (i j : ℕ) (x : W) (p : P) → io.read i (io.reset_controller j x p) ≡ io.read i p

  Starts-reset :
      (i j : ℕ) (x : W) (ls : List (AxisLimits W)) (cs : List (Channel W)) (p : P)
      → Unmoved
      → Starts i ls cs p
      → Starts i ls cs (io.reset_controller j x p)
  Starts-reset i j x [] [] p u s = tt
  Starts-reset i j x [] (c ∷ cs) p u s = s
  Starts-reset i j x (l ∷ ls) [] p u s = s
  Starts-reset i j x (l ∷ ls) (c ∷ cs) p u (same, w, s) = (
    same,
    subst (λ st. Within l st.position) (sym (u i j x p)) w,
    Starts-reset (i + 1) j x ls cs p u s,
  )

  prepare-Ready :
      (i : ℕ) (ls : List (AxisLimits W)) (cs : List (Channel W)) (p : P)
      → Unmoved
      → Starts i ls cs p
      → Ready ls (prepare io i cs p).0
  unfolding prepare
  prepare-Ready i [] [] p u s = tt
  prepare-Ready i [] (c ∷ cs) p u s = s
  prepare-Ready i (l ∷ ls) [] p u s = s
  prepare-Ready i (l ∷ ls) (c ∷ cs) p u (same, w, s) =
      (same, w, prepare-Ready (i + 1) ls cs _ u (Starts-reset (i + 1) i _ ls cs p u s))

  -- Whatever the sources, the controllers, the devices and the stop request do (NaN included), every
  -- governed position in the telemetry of a run lies within
  -- the limits of its axis: if the axes start there, the travels are not empty, the largest steps are
  -- not negative, and the reset of a controller does not move an axis.
  pub run-RowsWithin :
      (ls : List (AxisLimits W)) (settle : W) (requested : ℕ → Bool) (channels : List (Channel W))
      (p : P)
      → Travels ls
      → Unmoved
      → Starts 0 ls channels p
      → All (RowsWithin ls) (run io duration dt stop_time settle requested channels p).rows
  unfolding run start
  run-RowsWithin ls settle requested channels p t u s =
      (run_from-Inv ls (max_cycles io duration dt stop_time settle) 0 requested
        (start io duration dt stop_time settle channels p) t started).rows_within
    where
      started : Inv ls (start io duration dt stop_time settle channels p)
      started = record { ready = prepare-Ready 0 ls channels p u s; rows_within = tt }

  held_axis :
      (i : ℕ) (cs : List (Channel W)) (p : P)
      → map (λ (c : Channel W). c.governor) (hold_all io i cs p).0 ≡ map (λ c. c.governor) cs
  unfolding hold_all hold
  held_axis i [] p = refl
  held_axis i (c ∷ cs) p = ap (◌∷◌ c.governor) (held_axis (i + 1) cs _)

  held_cmd :
      (i : ℕ) (cs : List (Channel W)) (p : P)
      → map (λ (c : Channel W). c.cmd) (hold_all io i cs p).0 ≡ map (λ c. c.governor.prev) cs
  unfolding hold_all hold held_position
  held_cmd i [] p = refl
  held_cmd i (c ∷ cs) p = ap (◌∷◌ c.governor.prev) (held_cmd (i + 1) cs _)

  -- The state behind the axes after a write of a position to each from `i` on.
  abbrev pub written : ℕ → List W → P → P
  written i [] p = p
  written i (x ∷ xs) p = written (i + 1) xs (io.write_setpoint i x p)

  held_writes :
      (i : ℕ) (cs : List (Channel W)) (p : P)
      → (hold_all io i cs p).1 ≡ written i (map (λ c. c.governor.prev) cs) p
  unfolding hold_all held_position
  held_writes i [] p = refl
  held_writes i (c ∷ cs) p = held_writes (i + 1) cs _

  is_normal-other : (s : SafetyState) → s ≢ normal → is_normal s ≡ false
  unfolding is_normal
  is_normal-other normal h = absurd (h refl)
  is_normal-other reduced h = refl
  is_normal-other protective_stop h = refl
  is_normal-other e_stop h = refl
  is_normal-other fault h = refl

  any_unsafe-at :
      (j i : ℕ) (cs : List (Channel W)) (p : P)
      → j < length cs
      → (io.read (i + j) p).safety ≢ normal
      → any_unsafe io i cs p ≡ true
  unfolding any_unsafe
  any_unsafe-at j i [] p below h = absurd (omega (arith, below))
  any_unsafe-at zero i (c ∷ cs) p below h =
      let here : i + 0 ≡ i = omega arith in
      rw (is_normal-other (io.read i p).safety (subst (λ k. (io.read k p).safety ≢ normal) here h))
        refl
  any_unsafe-at (suc j) i (c ∷ cs) p below h =
      let there : i + suc j ≡ i + 1 + j = omega arith in
      let rest =
        any_unsafe-at j (i + 1) cs p (omega (arith, below))
          (subst (λ k. (io.read k p).safety ≢ normal) there h) in
      ground (arith, rest)

  cycle-held :
      (c : ℕ) (b : Bool) (e : Exec W P)
      → any_unsafe io 0 e.channels e.plant ≡ true
      → let e' = cycle io duration dt stop_time c b e in
        (e'.plant ≡ io.step_all dt (written 0 (map (λ x. x.governor.prev) e.channels) e.plant))
        × (map (λ (x : Channel W). x.cmd) e'.channels ≡ map (λ x. x.governor.prev) e.channels)
        × (map (λ (x : Channel W). x.governor) e'.channels ≡ map (λ x. x.governor) e.channels)
        × (e'.path_s ≡ e.path_s)
        × (e'.stats.safety_hold_cycles ≡ e.stats.safety_hold_cycles + 1)
  unfolding cycle drive slow_down observe
  cycle-held c false e h = rw h (
    ap (io.step_all dt) (held_writes 0 e.channels _),
    held_cmd 0 e.channels _,
    held_axis 0 e.channels _,
    refl,
    refl,
  )
  cycle-held c true e h = rw h (
    ap (io.step_all dt) (held_writes 0 e.channels _),
    held_cmd 0 e.channels _,
    held_axis 0 e.channels _,
    refl,
    refl,
  )

  -- The hold is cell-wide: if one axis reports a state other than normal, then in that cycle what is
  -- written is, to every axis, the last output of its governor, which is recorded as its command
  -- before the worlds are stepped once; no governor changes, and the path does not advance, whatever
  -- the stop request reads.
  pub cycle_unsafe :
      (c : ℕ) (b : Bool) (e : Exec W P) (j : ℕ)
      → j < length e.channels
      → (io.read j e.plant).safety ≢ normal
      → let e' = cycle io duration dt stop_time c b e in
        (e'.plant ≡ io.step_all dt (written 0 (map (λ x. x.governor.prev) e.channels) e.plant))
        × (map (λ (x : Channel W). x.cmd) e'.channels ≡ map (λ x. x.governor.prev) e.channels)
        × (map (λ (x : Channel W). x.governor) e'.channels ≡ map (λ x. x.governor) e.channels)
        × (e'.path_s ≡ e.path_s)
        × (e'.stats.safety_hold_cycles ≡ e.stats.safety_hold_cycles + 1)
  cycle_unsafe c b e j below h = cycle-held c b e (
      any_unsafe-at j 0 e.channels e.plant below
        (subst (λ k. (io.read k e.plant).safety ≢ normal) (omega arith) h))
