-- ===== src/Vision/Tracker/Window.antt =====
-- The window of the constant-velocity tracker of vision/tracker.hpp.
use robonode.Prelude.{
  ℕ, ◌≤◌, ◌≡◌, refl, ltb, if◌then◌else◌, false, Bool-cases, if-both, inl, inr, List, [], ◌∷◌, ◌++◌,
  length, arith,
}
use robonode.Core.Double.{Double}
use robonode.Core.Geometry.{Vec3}
use robonode.Vision.Tracker.{
  Observation, ConstantVelocityTracker, back, trim, stale, other_part, window_predict,
  window_observe, window_observe_all, new_window,
}

length-trim {ℓ} : {A : Type ℓ} (w : ℕ) (h : List A) → length (trim w h) ≤ w
unfolding trim
length-trim w [] = omega arith
length-trim w (o ∷ h) = ground (arith, length-trim w h)

module _ {ℓ} {W : Type ℓ} ⦃d : Double W⦄ where
  -- Each sighting of the list, after `o`, is later than the one before it.
  abbrev Later : Observation W → List (Observation W) → Type 0
  Later o [] = Unit
  Later o (x ∷ h) = (d.le x.t_s o.t_s ≡ false) × Later x h

  abbrev pub Times : List (Observation W) → Type 0
  Times [] = Unit
  Times (o ∷ h) = Later o h

  Later-append :
      (o s : Observation W) (h : List (Observation W))
      → Later o h
      → d.le s.t_s (back o h).t_s ≡ false
      → Later o (h ++ s ∷ [])
  unfolding back
  Later-append o s [] l e = (e, tt)
  Later-append o s (x ∷ h) (f, l) e = (f, Later-append x s h l e)

  Later-Times : (o : Observation W) (h : List (Observation W)) → Later o h → Times h
  Later-Times o [] l = tt
  Later-Times o (x ∷ h) (f, l) = l

  Times-append :
      (s : Observation W) (h : List (Observation W))
      → Times h
      → stale s h ≡ false
      → Times (h ++ s ∷ [])
  unfolding stale
  Times-append s [] l e = tt
  Times-append s (o ∷ h) l e = Later-append o s h l e

  trim-Times : (w : ℕ) (h : List (Observation W)) → Times h → Times (trim w h)
  unfolding trim
  trim-Times w [] l = tt
  trim-Times w (o ∷ h) l =
      if-both Times (ltb w (length (o ∷ h))) (trim-Times w h (Later-Times o h l)) l

  -- The window holds at most so many sightings, each later than the one before it.
  pub record Inv (w : ℕ) (t : ConstantVelocityTracker W) : Type 0 where
    pub same : t.window ≡ w
    pub bounded : length t.history ≤ w
    pub times : Times t.history

  module _ (norm : Vec3 W → W) where
    window_observe-Inv :
        (w : ℕ) (seen : Observation W) (t : ConstantVelocityTracker W)
        → Inv w t
        → Inv w (window_observe norm seen t)
    unfolding window_observe
    window_observe-Inv w seen t v = elim (Bool-cases (stale seen t.history)) [
      | inl e ↦ rw e v
      | inr e ↦ rw e (record {
        same = v.same;
        bounded = rw v.same (length-trim w _);
        times = trim-Times t.window _ (
            if-both (λ kept. Times (kept ++ seen ∷ []))
              (other_part norm t.gate_m seen (window_predict t.min_span_s t.history seen.t_s)) tt
              (Times-append seen t.history v.times e));
      })
    ]

    window_observe_all-Inv :
        (w : ℕ) (rest : List (Observation W)) (t : ConstantVelocityTracker W)
        → Inv w t
        → Inv w (window_observe_all norm rest t)
    unfolding window_observe_all
    window_observe_all-Inv w [] t v = v
    window_observe_all-Inv w (seen ∷ rest) t v =
        window_observe_all-Inv w rest _ (window_observe-Inv w seen t v)

    -- Whatever is observed, stale and repeated sightings and other parts included: the tracker keeps
    -- at most the sightings of its window, two at least, each later than the one before it.
    pub new_window-Inv :
        (window : ℕ) (gate min_span : W) (rest : List (Observation W))
        → Inv
            (if ltb 2 window then window else 2)
            (window_observe_all norm rest (new_window window gate min_span))
    unfolding new_window
    new_window-Inv window gate min_span rest =
        window_observe_all-Inv _ rest (new_window window gate min_span)
          (record { same = refl; bounded = omega arith; times = tt })
