-- ===== src/Vision/Tracker.antt =====
-- vision/tracker.hpp: the constant-velocity tracker of a moving part. `norm` of core/geometry.hpp is a parameter,
-- since it takes a root.
pub mod Window
use robonode.Prelude.{
  ℕ, ◌+◌, ltb, if◌then◌else◌, Bool, true, false, Option, none, some, List, [], ◌∷◌, ◌++◌, length,
}
use robonode.Core.Double.{Double, nought}
use robonode.Core.Geometry.{Vec3, minus}

pub record Observation {ℓ} (W : Type ℓ) : Type ℓ where
  pub t_s : W
  pub position : Vec3 W

-- `history` has the oldest sighting first.
pub record ConstantVelocityTracker {ℓ} (W : Type ℓ) : Type ℓ where
  pub window : ℕ
  pub gate_m : W
  pub min_span_s : W
  pub history : List (Observation W)

-- `history_.back()`, of the sighting `o` and those after it.
unfoldable pub back {ℓ} : {A : Type ℓ} → A → List A → A
back o [] = o
back o (x ∷ h) = back x h

-- `while (history_.size() > window_) history_.pop_front();`
unfoldable pub trim {ℓ} : {A : Type ℓ} → ℕ → List A → List A
trim window [] = []
trim window (o ∷ h) =
    let rest = trim window h in if ltb window (length (o ∷ h)) then rest else o ∷ h

module _ {ℓ} {W : Type ℓ} ⦃d : Double W⦄ where
  unfoldable pub still : Vec3 W
  still = record { x = nought; y = nought; z = nought }

  -- Where a part that was seen at `o` is at `t_s`, at the velocity `v`.
  unfoldable pub extrapolate : Observation W → Vec3 W → W → Vec3 W
  extrapolate o v t_s =
      let dt = d.sub t_s o.t_s in
      record {
        x = d.add o.position.x (d.mul v.x dt);
        y = d.add o.position.y (d.mul v.y dt);
        z = d.add o.position.z (d.mul v.z dt);
      }

  unfoldable pub sum_times : W → List (Observation W) → W
  sum_times acc [] = acc
  sum_times acc (o ∷ h) = sum_times (d.add acc o.t_s) h

  -- The loop over `var` and `cov`.
  unfoldable pub moments : W → W × Vec3 W → List (Observation W) → W × Vec3 W
  moments mean acc [] = acc
  moments mean (var, cov) (o ∷ h) =
      let dt = d.sub o.t_s mean in
      moments mean
        (
          d.add var (d.mul dt dt),
          record {
            x = d.add cov.x (d.mul dt o.position.x);
            y = d.add cov.y (d.mul dt o.position.y);
            z = d.add cov.z (d.mul dt o.position.z);
          },
        )
        h

  -- `velocity` from the mean of the times on.
  unfoldable pub slope : List (Observation W) → Vec3 W
  unfolding sum_times moments still
  slope h =
      let mean = d.div (sum_times nought h) (d.of_nat (length h)) in
      let (var, cov) = moments mean (nought, still) h in
      if d.le var (d.decimal 1 12)
      then still
      else record { x = d.div cov.x var; y = d.div cov.y var; z = d.div cov.z var }

  unfoldable pub window_velocity : W → List (Observation W) → Vec3 W
  unfolding slope back still
  window_velocity min_span [] = still
  window_velocity min_span (o ∷ []) = still
  window_velocity min_span (o ∷ x ∷ h) =
      if d.lt (d.sub (back x h).t_s o.t_s) min_span then still else slope (o ∷ x ∷ h)

  unfoldable pub window_predict : W → List (Observation W) → W → Option (Vec3 W)
  unfolding window_velocity extrapolate back
  window_predict min_span [] t_s = none
  window_predict min_span (o ∷ h) t_s =
      some (extrapolate (back o h) (window_velocity min_span (o ∷ h)) t_s)

  -- `!history_.empty() && seen.t_s <= history_.back().t_s`
  unfoldable pub stale : Observation W → List (Observation W) → Bool
  unfolding back
  stale seen [] = false
  stale seen (o ∷ h) = d.le seen.t_s (back o h).t_s

  module _ (norm : Vec3 W → W) where
    -- A sighting further than the gate from where the part should be.
    unfoldable pub other_part : W → Observation W → Option (Vec3 W) → Bool
    unfolding minus
    other_part gate seen none = false
    other_part gate seen (some expected) = d.lt gate (norm (minus seen.position expected))

    unfoldable pub window_observe :
        Observation W → ConstantVelocityTracker W → ConstantVelocityTracker W
    unfolding stale other_part window_predict trim
    window_observe seen t =
        let kept =
          if other_part t.gate_m seen (window_predict t.min_span_s t.history seen.t_s)
          then []
          else t.history in
        if stale seen t.history then t else record t { history = trim t.window (kept ++ seen ∷ []) }

    unfoldable pub window_observe_all :
        List (Observation W) → ConstantVelocityTracker W → ConstantVelocityTracker W
    unfolding window_observe
    window_observe_all [] t = t
    window_observe_all (seen ∷ rest) t = window_observe_all rest (window_observe seen t)

  -- The constructor, which keeps two sightings at least.
  unfoldable pub new_window : ℕ → W → W → ConstantVelocityTracker W
  new_window window gate min_span = record {
    window = if ltb 2 window then window else 2;
    gate_m = gate;
    min_span_s = min_span;
    history = [];
  }
