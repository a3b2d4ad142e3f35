-- ===== src/Motion/Blend/Accepts.antt =====
-- Which moves motion/sync_blend.hpp plans.
use robonode.Prelude.{
  ℕ, ◌+◌, ◌-◌, ◌≤◌, ◌<◌, ◌≡◌, refl, ◌⊎◌, ◌↔◌, inl, inr, false, List, [], ◌∷◌, length, replicate,
  length-replicate, All, arith,
}
use mathlib.Core.Path.{subst}
use robonode.Core.Double.{Double, nought}
use robonode.Core.Result.{Result, ok, err, success}
use robonode.Motion.Limits.{AxisLimits}
use robonode.Motion.Blend.{
  BlendError, SyncBlendPlan, width, check_ragged, check_limits, check_shape, pace, settle_timing,
  assemble, make,
}
use robonode.Motion.Blend.Shape.{IsPlan, assemble-IsPlan, settle_timing-IsTiming, length-pace}

check_ragged_lem {ℓ} :
    {A : Type ℓ} (m : ℕ) (ws : List (List A))
    → (check_ragged m ws ≡ success) ↔ All (λ w. length w ≡ m) ws
unfolding check_ragged
check_ragged_lem m [] = ground arith
check_ragged_lem m (w ∷ ws) = ground (arith, check_ragged_lem m ws)

module _ {ℓ} {W : Type ℓ} ⦃d : Double W⦄ where
  abbrev pub IsUsable : AxisLimits W → Type 0
  IsUsable l = (d.le l.velocity_max nought ≡ false) × (d.le l.acceleration_max nought ≡ false)

  check_limits_lem :
      (i : ℕ) (ls : List (AxisLimits W)) → (check_limits i ls ≡ success) ↔ All IsUsable ls
  unfolding check_limits
  check_limits_lem i [] = ground arith
  check_limits_lem i (l ∷ ls) = ground (arith, check_limits_lem (i + 1) ls)

  -- There is an axis, each has its limits, all have as many waypoints, two at least, and the limits
  -- of velocity and acceleration are positive, or not numbers.
  pub record IsMove (ws : List (List W)) (ls : List (AxisLimits W)) : Type ℓ where
    pub some_axis : 0 < length ws
    pub limited : length ls ≡ length ws
    pub two : 2 ≤ width ws
    pub even : All (λ w. length w ≡ width ws) ws
    pub usable : All IsUsable ls

  check_shape_lem :
      (ws : List (List W)) (ls : List (AxisLimits W)) → check_shape ws ls ≡ success → IsMove ws ls
  unfolding check_shape
  check_shape_lem ws ls h = ground (arith, check_ragged_lem (width ws) ws, check_limits_lem 0 ls, h)

  IsMove-check_shape :
      (ws : List (List W)) (ls : List (AxisLimits W)) → IsMove ws ls → check_shape ws ls ≡ success
  unfolding check_shape
  IsMove-check_shape ws ls v =
      ground (arith, check_ragged_lem (width ws) ws, check_limits_lem 0 ls, v)

  assemble-settle_timing :
      (ws : List (List W)) (ls : List (AxisLimits W))
      → IsMove ws ls
      → IsPlan (width ws - 1) ws (
          assemble ws (
            settle_timing 15
              (d.decimal 9 1)
              ws
              ls
              (pace (d.decimal 75 2) ws ls (replicate (width ws - 1) (d.decimal 1 3)))))
  assemble-settle_timing ws ls v =
      let wide : width ws ≡ width ws - 1 + 1 = omega (arith, v.two) in
      let even = subst (λ k. All (λ w. length w ≡ k) ws) wide v.even in
      assemble-IsPlan (width ws - 1) ws _
        (settle_timing-IsTiming 15 (width ws - 1) _ ws ls _ wide even
          (length-pace (width ws - 1) _ ws ls _ even (length-replicate (width ws - 1) _)))
        even

  -- Each request is a move or is not. A move has a plan: as many axes as it names, each with a blend
  -- at every waypoint and a cruise between. They start at 0 and at rest at the first waypoint, each
  -- where and when the one before ends, as the pieces say themselves; a blend goes over to the
  -- velocity of the cruise after it, and the last to rest. What is not a move is refused.
  pub make-cases :
      (ws : List (List W)) (ls : List (AxisLimits W))
      → (IsMove ws ls × ((p : SyncBlendPlan W) × (make ws ls ≡ ok p) × IsPlan (width ws - 1) ws p))
        ⊎ ((¬ IsMove ws ls) × ((e : BlendError) × (make ws ls ≡ err e)))
  unfolding make
  make-cases ws ls = go (check_shape ws ls) refl
    where
      go :
          (r : Result BlendError (Unit {0}))
          → check_shape ws ls ≡ r
          → (IsMove ws ls
              × ((p : SyncBlendPlan W) × (make ws ls ≡ ok p) × IsPlan (width ws - 1) ws p))
            ⊎ ((¬ IsMove ws ls) × ((e : BlendError) × (make ws ls ≡ err e)))
      go (ok tt) h =
          let v = check_shape_lem ws ls h in inl (v, (_, rw h refl, assemble-settle_timing ws ls v))
      go (err e) h = inr (λ v. (ground (arith, IsMove-check_shape ws ls v, h)), (e, rw h refl))
