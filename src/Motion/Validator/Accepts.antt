-- ===== src/Motion/Validator/Accepts.antt =====
-- Exactly which trajectories motion/trajectory_validator.hpp accepts.
use robonode.Prelude.{
  ℕ, suc, ◌+◌, ◌≡◌, refl, ap, is_empty, ◌↔◌, Bool, true, false, List, [], ◌∷◌, length, ◌==◌, ==_iff,
  All, arith, Text,
}
use robonode.Core.Result.{Result, ok, ◌>>◌, guard, success, >>=-eq-ok}
use robonode.Core.Double.{Double, nought, greatest}
use robonode.Motion.Limits.{AxisLimits}
use robonode.Motion.Validator.{
  MotionSettings, AxisName, name_of, outside, check_points, check_axis, travel_time, check_axes,
  check,
}

guard-eq-ok :
    {E : Type 0} {A : Type 0} (b : Bool) (e : E) (r : Result E A) {a : A}
    → (guard b e >> r) ≡ ok a
    → (b ≡ true) × (r ≡ ok a)
guard-eq-ok true e r h = (refl, h)
guard-eq-ok false e r h = absurd (ground arith)

module _ {ℓ} {W : Type ℓ} ⦃d : Double W⦄ (cfg : MotionSettings W) where
  -- A finite point, in the travel of its axis or out of it by no more than the tolerance.
  abbrev pub IsPoint : AxisLimits W → W → Type 0
  IsPoint lim q = (d.is_finite q ≡ true) × (outside cfg lim q ≡ false)

  -- As many axes as limits; each has a waypoint, and only points that its limits admit.
  abbrev pub IsTrajectory : List (List W) → List (AxisLimits W) → Type 0
  IsTrajectory [] [] = Unit
  IsTrajectory [] (lim ∷ limits) = ⊥
  IsTrajectory (wp ∷ wps) [] = ⊥
  IsTrajectory (wp ∷ wps) (lim ∷ limits) =
      (is_empty wp ≡ false) × All (IsPoint lim) wp × IsTrajectory wps limits

  -- The longest of the times that the axes need, from `worst` on.
  pub longest : List (List W) → List (AxisLimits W) → W → W
  longest [] limits worst = worst
  longest (wp ∷ wps) [] worst = worst
  longest (wp ∷ wps) (lim ∷ limits) worst = longest wps limits (greatest worst (travel_time wp lim))

  check_points-eq-ok :
      (wp : List W) (lim : AxisLimits W) (name : AxisName)
      → (check_points cfg wp lim name ≡ success) ↔ All (IsPoint lim) wp
  unfolding check_points
  check_points-eq-ok [] lim name = ((λ h. tt), (λ h. refl))
  check_points-eq-ok (q ∷ wp) lim name =
      let rest = check_points-eq-ok wp lim name in
      (λ h. ground (arith, rest.0), λ h. ground (arith, rest.1))

  check_axis-eq-ok :
      (wp : List W) (lim : AxisLimits W) (name : AxisName)
      → (check_axis cfg wp lim name ≡ success) ↔ ((is_empty wp ≡ false) × All (IsPoint lim) wp)
  unfolding check_axis
  check_axis-eq-ok [] lim name = (λ h. ground arith, λ h. ground arith)
  check_axis-eq-ok (q ∷ wp) lim name =
      let points = check_points-eq-ok (q ∷ wp) lim name in
      (λ h. (refl, points.0 h), λ h. points.1 h.1)

  check_axes-eq-ok :
      (wps : List (List W)) (limits : List (AxisLimits W)) (ids : List Text) (i : ℕ) (worst w : W)
      → length wps ≡ length limits
      → (check_axes cfg wps limits ids i worst ≡ ok w)
        ↔ (IsTrajectory wps limits × (longest wps limits worst ≡ w))
  unfolding check_axes longest
  check_axes-eq-ok [] [] ids i worst w n = (λ h. (tt, ground arith), λ h. ap ok h.1)
  check_axes-eq-ok [] (lim ∷ limits) ids i worst w n = absurd (omega arith)
  check_axes-eq-ok (wp ∷ wps) [] ids i worst w n = absurd (omega arith)
  check_axes-eq-ok (wp ∷ wps) (lim ∷ limits) ids i worst w n =
      let first = check_axis-eq-ok wp lim (name_of ids i) in
      let rest =
        check_axes-eq-ok wps limits ids (i + 1) (greatest worst (travel_time wp lim)) w
          (omega arith) in
      (λ h. ground (arith, first.0, rest.0), λ h. ground (arith, first.1, rest.1))

  IsTrajectory-length :
      (wps : List (List W)) (limits : List (AxisLimits W))
      → IsTrajectory wps limits
      → length wps ≡ length limits
  IsTrajectory-length [] [] t = refl
  IsTrajectory-length [] (lim ∷ limits) t = absurd t
  IsTrajectory-length (wp ∷ wps) [] t = absurd t
  IsTrajectory-length (wp ∷ wps) (lim ∷ limits) (_, _, t) =
      ap suc (IsTrajectory-length wps limits t)

  pub check-eq-ok :
      (wps : List (List W)) (limits : List (AxisLimits W)) (ids : List Text)
      → (check cfg wps limits ids ≡ success)
        ↔ (IsTrajectory wps limits × (d.lt cfg.max_duration_s (longest wps limits nought) ≡ false))
  unfolding check
  check-eq-ok wps limits ids = (accepted, accepts)
    where
      accepted :
          check cfg wps limits ids ≡ success
          → IsTrajectory wps limits × (d.lt cfg.max_duration_s (longest wps limits nought) ≡ false)
      accepted h =
          let (n, h') = guard-eq-ok (length wps == length limits) _ _ h in
          let (w, h'', g) = >>=-eq-ok (check_axes cfg wps limits ids 0 nought) _ h' in
          let (t, e) = (check_axes-eq-ok wps limits ids 0 nought w ((==_iff _ _).0 n)).0 h'' in
          (t, ground arith)

      accepts :
          IsTrajectory wps limits × (d.lt cfg.max_duration_s (longest wps limits nought) ≡ false)
          → check cfg wps limits ids ≡ success
      accepts (t, short) =
          let n = IsTrajectory-length wps limits t in
          rw (
            (==_iff (length wps) (length limits)).1 n,
            (check_axes-eq-ok wps limits ids 0 nought _ n).1 (t, refl),
            short,
          )
