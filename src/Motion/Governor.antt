-- ===== src/Motion/Governor.antt =====
-- motion/governor.hpp: the envelope that every setpoint passes before it reaches a drive.
pub mod Envelope
use robonode.Prelude.{ℕ, ◌+◌, Bool, true, false, not, ◌||◌, if◌then◌else◌, List, [], ◌∷◌}
use robonode.Core.Double.{Double, nought, one, clamp}
use robonode.Motion.Limits.{AxisLimits}

-- The counters are `uint64_t`, and do not wrap in the life of a cell.
pub record Governor {ℓ} (W : Type ℓ) : Type ℓ where
  pub limits : AxisLimits W
  pub prev : W
  pub position_clamps : ℕ
  pub velocity_clamps : ℕ
  pub rejected_setpoints : ℕ

-- `Governor::Result`
pub record Governed {ℓ} (W : Type ℓ) : Type ℓ where
  pub position : W
  pub clamped : Bool

-- `if (b) ++n;`
abbrev pub count_if : Bool → ℕ → ℕ
count_if b n = if b then n + 1 else n

module _ {ℓ} {W : Type ℓ} ⦃d : Double W⦄ where
  -- `limits_.velocity_max * dt_s * (1.0 + 1e-9)`
  unfoldable pub dp_max : AxisLimits W → W → W
  dp_max limits dt = d.mul (d.mul limits.velocity_max dt) (d.add one (d.decimal 1 9))

  -- `apply` behind its first guard, with the position clamped to `p`.
  unfoldable pub limit_rate : Governor W → W → Bool → W → Governor W × Governed W
  limit_rate g p clamped bound =
      let g' : Governor W = record g { position_clamps = count_if clamped g.position_clamps } in
      let dp = d.sub p g.prev in
      if d.lt bound (d.abs dp)
      then (
        record g' {
          prev = d.add g.prev (d.copysign bound dp);
          velocity_clamps = g.velocity_clamps + 1;
        },
        record { position = d.add g.prev (d.copysign bound dp); clamped = true },
      )
      else (record g' { prev = p }, record { position = p; clamped = clamped })

  unfoldable pub apply : W → W → Governor W → Governor W × Governed W
  unfolding limit_rate dp_max clamp
  apply setpoint dt g =
      if not (d.is_finite setpoint) || not (d.lt nought dt)
      then (
        record g { rejected_setpoints = g.rejected_setpoints + 1 },
        record { position = g.prev; clamped = true },
      )
      else (let p = clamp setpoint g.limits.position_min g.limits.position_max in
          limit_rate g p (not (d.eq p setpoint)) (dp_max g.limits dt))

  unfoldable pub reset : W → Governor W → Governor W
  reset position g = record g {
    prev = position;
    position_clamps = 0;
    velocity_clamps = 0;
    rejected_setpoints = 0;
  }

  unfoldable pub held_position : Governor W → W
  held_position g = g.prev

  -- The outputs for a sequence of setpoints, each with its period.
  unfoldable pub apply_all : List (W × W) → Governor W → List W
  unfolding apply
  apply_all [] g = []
  apply_all ((setpoint, dt) ∷ inputs) g =
      let (g', r) = apply setpoint dt g in r.position ∷ apply_all inputs g'
