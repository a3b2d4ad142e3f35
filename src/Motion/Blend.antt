-- ===== src/Motion/Blend.antt =====
-- motion/sync_blend.hpp: the plan of a move of several axes through waypoints, with one clock.
pub mod Sample
pub mod Shape
pub mod Accepts
use robonode.Prelude.{
  ℕ, zero, suc, ◌+◌, ◌-◌, Bool, true, false, not, ◌||◌, ◌&&◌, if◌then◌else◌, ◌==◌, ltb, Option,
  none, some, List, [], ◌∷◌, ◌++◌, length, map, zip_with, replicate,
}
use robonode.Core.Double.{Double, nought, greatest, clamp}
use robonode.Core.Result.{Result, ok, err, ◌>>=◌, ◌>>◌, guard, Status, success}
use robonode.Motion.Limits.{AxisLimits, State}

pub data BlendError : Type 0 where
  axes_and_limits : ℕ → ℕ → BlendError
  too_few_waypoints : BlendError
  ragged_waypoints : ℕ → ℕ → BlendError
  no_usable_limit : ℕ → BlendError

pub record Piece {ℓ} (W : Type ℓ) : Type ℓ where
  pub t0 : W
  pub dt : W
  pub p0 : W
  pub v0 : W
  pub a : W

pub record SyncBlendPlan {ℓ} (W : Type ℓ) : Type ℓ where
  pub n_axes : ℕ
  pub duration : W
  pub pieces : List (List (Piece W))

-- `T`, `v` and `tb`
pub record Timing {ℓ} (W : Type ℓ) : Type ℓ where
  pub segments : List W
  pub speeds : List (List W)
  pub blends : List W

-- `waypoints[0].size()`
abbrev pub width {ℓ} : {A : Type ℓ} → List (List A) → ℕ
width [] = 0
width (w ∷ ws) = length w

-- The loop that refuses ragged waypoints.
unfoldable pub check_ragged {ℓ} : {A : Type ℓ} → ℕ → List (List A) → Status BlendError
check_ragged m [] = success
check_ragged m (w ∷ ws) = guard (length w == m) (ragged_waypoints (length w) m) >> check_ragged m ws

module _ {ℓ} {W : Type ℓ} ⦃d : Double W⦄ where
  -- The loop over the limits, from the axis `i`.
  unfoldable pub check_limits : ℕ → List (AxisLimits W) → Status BlendError
  check_limits i [] = success
  check_limits i (l ∷ ls) =
      guard (not (d.le l.velocity_max nought || d.le l.acceleration_max nought)) (no_usable_limit i)
      >> check_limits (i + 1) ls

  unfoldable pub check_shape : List (List W) → List (AxisLimits W) → Status BlendError
  unfolding check_ragged check_limits
  check_shape waypoints limits = do
    guard (not (length waypoints == 0 || not (length limits == length waypoints)))
        (axes_and_limits (length waypoints) (length limits))
    guard (not (ltb (width waypoints) 2)) too_few_waypoints
    check_ragged (width waypoints) waypoints
    check_limits 0 limits

  -- `w[k + 1] - w[k]`, for each segment
  unfoldable pub deltas : List W → List W
  deltas [] = []
  deltas (a ∷ []) = []
  deltas (a ∷ b ∷ w) = d.sub b a ∷ deltas (b ∷ w)

  -- The segment durations, after the axes of the list: the slowest paces the group.
  unfoldable pub pace : W → List (List W) → List (AxisLimits W) → List W → List W
  unfolding deltas greatest
  pace headroom [] ls ts = ts
  pace headroom (w ∷ ws) [] ts = ts
  pace headroom (w ∷ ws) (l ∷ ls) ts = pace headroom ws ls (
      zip_with (λ t delta. greatest t (d.div (d.abs delta) (d.mul headroom l.velocity_max))) ts
        (deltas w))

  -- `v[i]`
  unfoldable pub velocities : List W → List W → List W
  unfolding deltas
  velocities ts w = zip_with (λ delta t. d.div delta t) (deltas w) ts

  -- `tb`, after the axes of the list, from their velocities: at each waypoint the slowest blend.
  unfoldable pub blend_times : W → List (List W) → List (AxisLimits W) → List W → List W
  unfolding greatest
  blend_times headroom [] ls tb = tb
  blend_times headroom (v ∷ vs) [] tb = tb
  blend_times headroom (v ∷ vs) (l ∷ ls) tb = blend_times headroom vs ls (
      zip_with (λ t jump. greatest t (d.div (d.abs jump) (d.mul headroom l.acceleration_max))) tb
        (zip_with (λ v_out v_in. d.sub v_out v_in) (v ++ nought ∷ []) (nought ∷ v)))

  -- A segment whose blends do not fit is stretched; whether all fitted.
  unfoldable pub stretch : List W → List W → List W × Bool
  stretch [] tb = ([], true)
  stretch (t ∷ ts) [] = (t ∷ ts, true)
  stretch (t ∷ ts) (b ∷ []) = (t ∷ ts, true)
  stretch (t ∷ ts) (b ∷ b' ∷ tb) =
      let (ts', fits) = stretch ts (b' ∷ tb) in
      let needed = d.div (d.add b b') (d.of_nat 2) in
      if d.lt t needed then (d.mul needed (d.decimal 105 2) ∷ ts', false) else (t ∷ ts', fits)

  unfoldable pub timing_of : W → List (List W) → List (AxisLimits W) → List W → Timing W
  unfolding velocities blend_times
  timing_of headroom waypoints limits ts = record {
    segments = ts;
    speeds = map (velocities ts) waypoints;
    blends =
        blend_times headroom (map (velocities ts) waypoints) limits
          (replicate (width waypoints) (d.decimal 1 9));
  }

  -- The loop over `iter`, with so many rounds left after this one.
  unfoldable pub settle_timing : ℕ → W → List (List W) → List (AxisLimits W) → List W → Timing W
  unfolding timing_of stretch
  settle_timing zero headroom waypoints limits ts =
      let t = timing_of headroom waypoints limits ts in
      record t { segments = (stretch ts t.blends).0 }
  settle_timing (suc n) headroom waypoints limits ts =
      let t = timing_of headroom waypoints limits ts in
      let (ts', fits) = stretch ts t.blends in
      let again = settle_timing n headroom waypoints limits ts' in
      if fits then record t { segments = ts' } else again

  -- `tau` from a waypoint on, with the segments that follow it
  unfoldable pub knots_from : W → List W → List W
  knots_from tau [] = tau ∷ []
  knots_from tau (t ∷ ts) = tau ∷ knots_from (d.add tau t) ts

  unfoldable pub half : W → W
  half x = d.div x (d.of_nat 2)

  unfoldable pub first_or_zero : List W → W
  first_or_zero [] = nought
  first_or_zero (x ∷ xs) = x

  -- `pos`, after a blend, and how long the cruise to the next one takes
  unfoldable pub pos_after : W → W → W → W → W
  pos_after pos vel a b =
      d.add pos (d.add (d.mul vel b) (d.mul (d.mul (d.mul (d.decimal 5 1) a) b) b))

  unfoldable pub cruise_of : W × W → W × W → W
  unfolding half
  cruise_of (b, tau) (b', tau') = d.sub (d.sub tau' (half b')) (d.add tau (half b))

  abbrev pub blend_piece : W → W → W → W → W → Piece W
  blend_piece pos vel t b v = record {
    t0 = t;
    dt = b;
    p0 = pos;
    v0 = vel;
    a = d.div (d.sub v vel) b;
  }

  abbrev pub cruise_piece : W → W → W → W → Piece W
  cruise_piece pos v t cruise = record { t0 = t; dt = cruise; p0 = pos; v0 = v; a = nought }

  -- The loop over the waypoints of an axis: each has its blend time and its `tau`.
  unfoldable pub build : List (W × W) → List W → W → W → W → List (Piece W)
  unfolding pos_after cruise_of
  build [] vs pos vel t = []
  build (k ∷ knots) [] pos vel t = blend_piece pos vel t k.0 nought ∷ []
  build (k ∷ []) (v ∷ vs) pos vel t = blend_piece pos vel t k.0 v ∷ []
  build (k ∷ k' ∷ knots) (v ∷ vs) pos vel t =
      let pos' = pos_after pos vel (d.div (d.sub v vel) k.0) k.0 in
      let cruise = cruise_of k k' in
      blend_piece pos vel t k.0 v
      ∷ cruise_piece pos' v (d.add t k.0) cruise
      ∷ build (k' ∷ knots) vs (d.add pos' (d.mul v cruise)) v (d.add (d.add t k.0) cruise)

  unfoldable pub last_or : W → List W → W
  last_or x [] = x
  last_or x (y ∷ ys) = last_or y ys

  unfoldable pub assemble : List (List W) → Timing W → SyncBlendPlan W
  unfolding knots_from half first_or_zero build last_or
  assemble waypoints t =
      let taus = knots_from (half (first_or_zero t.blends)) t.segments in
      record {
        n_axes = length waypoints;
        duration = d.add (last_or nought taus) (half (last_or nought t.blends));
        pieces =
            zip_with
              (λ w v.
                build (zip_with (λ b tau. (b, tau)) t.blends taus) v (first_or_zero w) nought
                  nought)
              waypoints t.speeds;
      }

  -- `make`, with the default headrooms of velocity and acceleration as the code calls it.
  unfoldable pub make : List (List W) → List (AxisLimits W) → Result BlendError (SyncBlendPlan W)
  unfolding check_shape pace settle_timing assemble
  make waypoints limits =
      check_shape waypoints limits
      >> ok (
          assemble waypoints (
            settle_timing 15 (d.decimal 9 1) waypoints limits (
              pace (d.decimal 75 2) waypoints limits
                (replicate (width waypoints - 1) (d.decimal 1 3)))))
