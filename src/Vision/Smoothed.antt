-- ===== src/Vision/Smoothed.antt =====
-- vision/tracker.hpp: the smoothed tracker, and that it takes the sightings that the window takes.
use robonode.Prelude.{
  ℕ, ◌<◌, ◌≡◌, refl, ◌∙◌, sym, ap, ltb, if◌then◌else◌, Bool, false, Bool-cases, Option, none, some,
  List, [], ◌∷◌, ◌++◌, length, arith, inl, inr, if-both,
}
use robonode.Core.Double.{Double, nought, one, clamp}
use robonode.Core.Geometry.{Vec3}
use robonode.Vision.Tracker.{
  Observation, ConstantVelocityTracker, still, extrapolate, other_part, stale, back, trim,
  window_observe, window_observe_all, new_window,
}

pub record SmoothedTracker {ℓ} (W : Type ℓ) : Type ℓ where
  pub alpha : W
  pub gate_m : W
  pub min_span_s : W
  pub last : Option (Observation W)
  pub velocity : Vec3 W
  pub span_s : W

module _ {ℓ} {W : Type ℓ} ⦃d : Double W⦄ where
  unfoldable pub smooth_velocity : SmoothedTracker W → Vec3 W
  unfolding still
  smooth_velocity t = if d.lt t.span_s t.min_span_s then still else t.velocity

  unfoldable pub predict_from : Option (Observation W) → Vec3 W → W → Option (Vec3 W)
  unfolding extrapolate
  predict_from none v t_s = none
  predict_from (some o) v t_s = some (extrapolate o v t_s)

  unfoldable pub smooth_predict : SmoothedTracker W → W → Option (Vec3 W)
  unfolding smooth_velocity predict_from
  smooth_predict t t_s = predict_from t.last (smooth_velocity t) t_s

  unfoldable pub reset_track : SmoothedTracker W → SmoothedTracker W
  unfolding still
  reset_track t = record t { last = none; velocity = still; span_s = nought }

  -- `v + alpha * ((a - b) / dt - v)`
  unfoldable pub corrected : W → W → W → W → W → W
  corrected alpha dt v a b = d.add v (d.mul alpha (d.sub (d.div (d.sub a b) dt) v))

  -- `if (last_) { … }`
  unfoldable pub learn :
      Option (Observation W) → Observation W → SmoothedTracker W → SmoothedTracker W
  unfolding corrected
  learn none seen t = t
  learn (some o) seen t =
      let dt = d.sub seen.t_s o.t_s in
      record t {
        velocity = record {
          x = corrected t.alpha dt t.velocity.x seen.position.x o.position.x;
          y = corrected t.alpha dt t.velocity.y seen.position.y o.position.y;
          z = corrected t.alpha dt t.velocity.z seen.position.z o.position.z;
        };
        span_s = d.add t.span_s dt;
      }

  unfoldable pub smooth_stale : Observation W → Option (Observation W) → Bool
  smooth_stale seen none = false
  smooth_stale seen (some o) = d.le seen.t_s o.t_s

  module _ (norm : Vec3 W → W) where
    unfoldable pub smooth_observe : Observation W → SmoothedTracker W → SmoothedTracker W
    unfolding smooth_stale other_part smooth_predict reset_track learn
    smooth_observe seen t =
        let kept =
          if other_part norm t.gate_m seen (smooth_predict t seen.t_s) then reset_track t else t in
        if smooth_stale seen t.last
        then t
        else record (learn kept.last seen kept) { last = some seen }

    unfoldable pub smooth_observe_all : List (Observation W) → SmoothedTracker W → SmoothedTracker W
    unfolding smooth_observe
    smooth_observe_all [] t = t
    smooth_observe_all (seen ∷ rest) t = smooth_observe_all rest (smooth_observe seen t)

  unfoldable pub new_smoothed : W → W → W → SmoothedTracker W
  unfolding clamp still
  new_smoothed alpha gate min_span = record {
    alpha = clamp alpha nought one;
    gate_m = gate;
    min_span_s = min_span;
    last = none;
    velocity = still;
    span_s = nought;
  }

-- The last of a list.
abbrev pub last_of {ℓ} : {A : Type ℓ} → List A → Option A
last_of [] = none
last_of (o ∷ h) = some (back o h)

back-append {ℓ} : {A : Type ℓ} (o s : A) (h : List A) → back o (h ++ s ∷ []) ≡ s
unfolding back
back-append o s [] = refl
back-append o s (x ∷ h) = back-append x s h

last_of-append {ℓ} : {A : Type ℓ} (s : A) (h : List A) → last_of (h ++ s ∷ []) ≡ some s
unfolding back
last_of-append s [] = refl
last_of-append s (o ∷ h) = ap some (back-append o s h)

last_of-trim {ℓ} : {A : Type ℓ} (w : ℕ) (h : List A) → 0 < w → last_of (trim w h) ≡ last_of h
unfolding trim back
last_of-trim w [] p = refl
last_of-trim w (o ∷ []) p = ground arith
last_of-trim w (o ∷ x ∷ h) p =
    if-both (λ k. last_of k ≡ last_of (o ∷ x ∷ h)) (ltb w (length (o ∷ x ∷ h)))
      (last_of-trim w (x ∷ h) p) refl

module _ {ℓ} {W : Type ℓ} ⦃d : Double W⦄ where
  smooth_stale-last_of :
      (seen : Observation W) (h : List (Observation W))
      → smooth_stale seen (last_of h) ≡ stale seen h
  unfolding smooth_stale stale
  smooth_stale-last_of seen [] = refl
  smooth_stale-last_of seen (o ∷ h) = refl

  module _ (norm : Vec3 W → W) where
    window-kept :
        (seen : Observation W) (t : ConstantVelocityTracker W)
        → (window_observe norm seen t).window ≡ t.window
    unfolding window_observe
    window-kept seen t =
        if-both (λ (t' : ConstantVelocityTracker W). t'.window ≡ t.window) (stale seen t.history)
          refl refl

    agree_observe :
        (seen : Observation W) (t : ConstantVelocityTracker W) (s : SmoothedTracker W)
        → 0 < t.window
        → last_of t.history ≡ s.last
        → last_of (window_observe norm seen t).history ≡ (smooth_observe norm seen s).last
    unfolding window_observe smooth_observe
    agree_observe seen t s p h = elim (Bool-cases (stale seen t.history)) [
      | inl e ↦ rw (e, sym (ap (smooth_stale seen) h) ∙ (smooth_stale-last_of seen t.history ∙ e)) h
      | inr e ↦
          rw (e, sym (ap (smooth_stale seen) h) ∙ (smooth_stale-last_of seen t.history ∙ e))
            (last_of-trim t.window _ p ∙ last_of-append seen _)
    ]

    agree_observe_all :
        (rest : List (Observation W)) (t : ConstantVelocityTracker W) (s : SmoothedTracker W)
        → 0 < t.window
        → last_of t.history ≡ s.last
        → last_of (window_observe_all norm rest t).history ≡ (smooth_observe_all norm rest s).last
    unfolding window_observe_all smooth_observe_all
    agree_observe_all [] t s p h = h
    agree_observe_all (seen ∷ rest) t s p h =
        agree_observe_all rest (window_observe norm seen t) (smooth_observe norm seen s)
          (rw (window-kept seen t) p) (agree_observe seen t s p h)

    -- The two trackers differ in what they predict and not in what they take: after the same
    -- sightings, whatever their gates, the last one that the smoothed tracker has is the last of the
    -- window of the other.
    smooth_observe_all-last :
        (rest : List (Observation W)) (window : ℕ) (gate min_span alpha gate' min_span' : W)
        → last_of (window_observe_all norm rest (new_window window gate min_span)).history
          ≡ (smooth_observe_all norm rest (new_smoothed alpha gate' min_span')).last
    unfolding new_window new_smoothed
    smooth_observe_all-last rest window gate min_span alpha gate' min_span' =
        agree_observe_all rest (new_window window gate min_span)
          (new_smoothed alpha gate' min_span') (ground arith) refl
