-- ===== src/Motion/Executive.antt =====
-- motion/sync_executive.hpp: the control cycle of all the axes of a cell, and its loop `run`. The
-- adapters, the worlds that they share, the setpoint sources and the controllers are classes behind
-- interfaces: `Plant` has their calls. The clock is left out, and with it the jitter and overrun
-- counts.
pub mod Safety
pub mod Counts
use robonode.Prelude.{
  ℕ, zero, suc, ◌+◌, ◌-◌, Bool, true, false, not, ◌||◌, ◌&&◌, if◌then◌else◌, ◌==◌, List, [], ◌∷◌,
  ◌++◌, Option, none, some,
}
use robonode.Core.Double.{Double, nought, one, least, greatest}
use robonode.Motion.Limits.{
  AxisLimits, State, SafetyState, normal, reduced, protective_stop, e_stop, fault, AxisState,
}
use robonode.Motion.Governor.{Governor, Governed, apply, reset, held_position}

-- The state `P` of everything behind an interface. `command` gives what the governor is given: with
-- no controllers, the position of the target.
pub record Plant {ℓ κ} (W : Type ℓ) (P : Type κ) : Type (ℓ ⊔ κ) where
  pub read : ℕ → P → AxisState W
  pub next : ℕ → W → W → P → State W × P
  pub command : ℕ → State W → W → P → W × P
  pub reset_controller : ℕ → W → P → P
  pub write_setpoint : ℕ → W → P → P
  pub step_all : W → P → P

-- core/telemetry.hpp
pub record TelemetryRow {ℓ} (W : Type ℓ) : Type ℓ where
  pub t_s : W
  pub target_position : W
  pub target_velocity : W
  pub governed_position : W
  pub actual_position : W
  pub actual_velocity : W
  pub following_error : W

pub record CycleStats : Type 0 where
  pub cycles : ℕ
  pub safety_hold_cycles : ℕ
  pub cancel_cycles : ℕ
  pub stopped_early : Bool

-- An axis in a cycle: its governor, and what `tgt_` and `cmd_` have for it.
pub record Channel {ℓ} (W : Type ℓ) : Type ℓ where
  pub governor : Governor W
  pub tgt : State W
  pub cmd : W

-- What the loop of `run` changes. `rows` lists the cycles, newest first.
pub record Exec {ℓ κ} (W : Type ℓ) (P : Type κ) : Type (ℓ ⊔ κ) where
  pub plant : P
  pub channels : List (Channel W)
  pub path_s : W
  pub path_rate : W
  pub settle_left : ℕ
  pub stats : CycleStats
  pub rows : List (List (TelemetryRow W))

unfoldable pub is_normal : SafetyState → Bool
is_normal normal = true
is_normal _ = false

module _ {ℓ κ} {W : Type ℓ} {P : Type κ} ⦃d : Double W⦄ (io : Plant W P) where
  open io use {read, next, command, reset_controller, write_setpoint, step_all}

  -- The loop of `prepare` from the axis `i`.
  unfoldable pub prepare : ℕ → List (Channel W) → P → List (Channel W) × P
  unfolding reset
  prepare i [] p = ([], p)
  prepare i (c ∷ cs) p =
      let position = (read i p).position in
      let (cs', p') = prepare (i + 1) cs (reset_controller i position p) in
      (record c { governor = reset position c.governor } ∷ cs', p')

  unfoldable pub any_unsafe : ℕ → List (Channel W) → P → Bool
  unfolding is_normal
  any_unsafe i [] p = false
  any_unsafe i (c ∷ cs) p = not (is_normal (read i p).safety) || any_unsafe (i + 1) cs p

  -- One round of the loop of `follow_all`.
  unfoldable pub follow : ℕ → W → W → Channel W → P → Channel W × P
  unfolding apply
  follow i path_s dt c p =
      let (target, p₁) = next i path_s dt p in
      let (ref, p₂) = command i target dt p₁ in
      let (g, r) = apply ref dt c.governor in
      (record { governor = g; tgt = target; cmd = r.position }, write_setpoint i r.position p₂)

  unfoldable pub follow_all : ℕ → W → W → List (Channel W) → P → List (Channel W) × P
  unfolding follow
  follow_all i path_s dt [] p = ([], p)
  follow_all i path_s dt (c ∷ cs) p =
      let (c', p') = follow i path_s dt c p in
      let (cs', p'') = follow_all (i + 1) path_s dt cs p' in (c' ∷ cs', p'')

  unfoldable pub hold : Channel W → Channel W
  unfolding held_position
  hold c = record c {
    cmd = held_position c.governor;
    tgt = record { position = held_position c.governor; velocity = nought; acceleration = nought };
  }

  unfoldable pub hold_all : ℕ → List (Channel W) → P → List (Channel W) × P
  unfolding hold
  hold_all i [] p = ([], p)
  hold_all i (c ∷ cs) p =
      let (cs', p') = hold_all (i + 1) cs (write_setpoint i (held_position c.governor) p) in
      (hold c ∷ cs', p')

  unfoldable pub read_all : ℕ → W → List (Channel W) → P → List (TelemetryRow W)
  read_all i t [] p = []
  read_all i t (c ∷ cs) p =
      let st = read i p in
      record {
        t_s = t;
        target_position = c.tgt.position;
        target_velocity = c.tgt.velocity;
        governed_position = c.cmd;
        actual_position = st.position;
        actual_velocity = st.velocity;
        following_error = d.sub c.cmd st.position;
      }
      ∷ read_all (i + 1) t cs p

  module _ (duration dt stop_time : W) where
    -- `if (cancel != nullptr && cancel->requested()) …`
    unfoldable pub slow_down : Bool → Exec W P → Exec W P
    slow_down false e = e
    slow_down true e = record e {
      path_rate = greatest nought (d.sub e.path_rate (d.div dt stop_time));
      stats = record (e.stats) { cancel_cycles = e.stats.cancel_cycles + 1 };
    }

    -- `hold_all()` and its count, or `follow_all()` and the advance of the path.
    unfoldable pub drive : Bool → Exec W P → Exec W P
    unfolding hold_all follow_all
    drive true e =
        let (cs, p) = hold_all 0 e.channels e.plant in
        record e {
          channels = cs;
          plant = p;
          stats = record (e.stats) { safety_hold_cycles = e.stats.safety_hold_cycles + 1 };
        }
    drive false e =
        let (cs, p) = follow_all 0 e.path_s dt e.channels e.plant in
        record e {
          channels = cs;
          plant = p;
          path_s = least (d.add e.path_s (d.mul e.path_rate dt)) duration;
        }

    -- `step_all`, and `read_all` in the cycle `c`.
    unfoldable pub observe : ℕ → Exec W P → Exec W P
    unfolding read_all
    observe c e =
        let p = step_all dt e.plant in
        record e { plant = p; rows = read_all 0 (d.mul (d.of_nat c) dt) e.channels p ∷ e.rows }

    -- The cycle `c`, up to its test for the end.
    unfoldable pub cycle : ℕ → Bool → Exec W P → Exec W P
    unfolding slow_down drive observe any_unsafe
    cycle c requested e =
        let e' = slow_down requested e in observe c (drive (any_unsafe 0 e'.channels e'.plant) e')

    unfoldable pub finished : Exec W P → Bool
    finished e = d.eq e.path_rate nought || d.le duration e.path_s

    -- `stats.cycles = …; stats.stopped_early = …`
    unfoldable pub close_run : ℕ → Exec W P → Exec W P
    close_run c e = record e {
      stats = record (e.stats) {
        cycles = c + 1;
        stopped_early = d.eq e.path_rate nought && d.lt e.path_s duration;
      };
    }

    -- The loop, with `left` cycles of `max_cycles` to go, from the cycle `c`. `requested` is what the
    -- stop request reads in each cycle.
    unfoldable pub run_from : ℕ → ℕ → (ℕ → Bool) → Exec W P → Exec W P
    unfolding cycle finished close_run
    run_from zero c requested e = record e { stats = record (e.stats) { cycles = c } }
    run_from (suc left) c requested e =
        let e' = cycle c (requested c) e in
        let after = run_from left (c + 1) requested e' in
        let settling =
          run_from left (c + 1) requested (record e' { settle_left = e'.settle_left - 1 }) in
        if finished e' then (if e'.settle_left == 0 then close_run c e' else settling) else after

    -- `n_cycles`, `max_cycles`, and `settle_left` at the start
    unfoldable pub max_cycles : W → ℕ
    max_cycles settle =
        d.trunc (d.div (d.add duration settle) dt) + 1 + d.trunc (d.div stop_time dt) + 1

    -- After `prepare`, and before the first cycle.
    unfoldable pub start : W → List (Channel W) → P → Exec W P
    unfolding prepare
    start settle channels p =
        let (cs, p') = prepare 0 channels p in
        record {
          plant = p';
          channels = cs;
          path_s = nought;
          path_rate = one;
          settle_left = d.trunc (d.div settle dt) + 1;
          stats = record {
            cycles = 0;
            safety_hold_cycles = 0;
            cancel_cycles = 0;
            stopped_early = false;
          };
          rows = [];
        }

    unfoldable pub run : W → (ℕ → Bool) → List (Channel W) → P → Exec W P
    unfolding start run_from max_cycles
    run settle requested channels p =
        run_from (max_cycles settle) 0 requested (start settle channels p)
