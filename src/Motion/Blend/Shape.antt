-- ===== src/Motion/Blend/Shape.antt =====
-- The plans of motion/sync_blend.hpp: which requests have one, and what its pieces are.
use robonode.Prelude.{
  ℕ, zero, suc, ◌+◌, ◌≡◌, refl, ◌∙◌, ap, sym, List, [], ◌∷◌, ◌++◌, length, map, zip_with,
  length-zip_with, length-replicate, length-append, length-map, All, arith, if-both,
}
use robonode.Core.Double.{Double, nought}
use robonode.Motion.Limits.{AxisLimits}
use robonode.Motion.Blend.{
  Piece, SyncBlendPlan, Timing, width, deltas, pace, velocities, blend_times, stretch, timing_of,
  settle_timing, knots_from, half, first_or_zero, build, pos_after, cruise_of, assemble,
}

module _ {ℓ} {W : Type ℓ} ⦃d : Double W⦄ where
  -- Where a piece of constant acceleration ends.
  abbrev pub end_of : Piece W → W
  end_of b =
      d.add b.p0 (d.add (d.mul b.v0 b.dt) (d.mul (d.mul (d.mul (d.decimal 5 1) b.a) b.dt) b.dt))

  abbrev pub StartsAt : W → W → W → Piece W → Type ℓ
  StartsAt t pos vel b = (b.t0 ≡ t) × (b.p0 ≡ pos) × (b.v0 ≡ vel)

  -- Blends and cruises by turns, from a time, a position and a velocity on: each starts when and
  -- where the one before ends; a blend goes from the velocity before it to that of the cruise after
  -- it, which keeps it, and the last to rest.
  abbrev pub Joined : W → W → W → List (Piece W) → Type ℓ
  Joined t pos vel [] = Unit
  Joined t pos vel (b ∷ []) = StartsAt t pos vel b × (b.a ≡ d.div (d.sub nought vel) b.dt)
  Joined t pos vel (b ∷ c ∷ ps) =
      StartsAt t pos vel b
      × (b.a ≡ d.div (d.sub c.v0 vel) b.dt)
      × (c.t0 ≡ d.add t b.dt)
      × (c.p0 ≡ end_of b)
      × (c.a ≡ nought)
      × Joined (d.add c.t0 c.dt) (d.add c.p0 (d.mul c.v0 c.dt)) c.v0 ps

  build-Joined :
      (knots : List (W × W)) (vs : List W) (pos vel t : W)
      → length knots ≡ length vs + 1
      → Joined t pos vel (build knots vs pos vel t)
  unfolding build pos_after
  build-Joined [] vs pos vel t h = tt
  build-Joined (k ∷ knots) [] pos vel t h = ((refl, refl, refl), refl)
  build-Joined (k ∷ []) (v ∷ vs) pos vel t h = absurd (omega (arith, h))
  build-Joined (k ∷ k' ∷ knots) (v ∷ vs) pos vel t h = (
    (refl, refl, refl),
    refl,
    refl,
    refl,
    refl,
    build-Joined (k' ∷ knots) vs _ v _ (omega (arith, h)),
  )

  length-build :
      (knots : List (W × W)) (vs : List W) (pos vel t : W)
      → length knots ≡ length vs + 1
      → length (build knots vs pos vel t) ≡ length vs + length vs + 1
  unfolding build
  length-build [] vs pos vel t h = omega (arith, h)
  length-build (k ∷ []) [] pos vel t h = refl
  length-build (k ∷ k' ∷ knots) [] pos vel t h = omega (arith, h)
  length-build (k ∷ []) (v ∷ vs) pos vel t h = omega (arith, h)
  length-build (k ∷ k' ∷ knots) (v ∷ vs) pos vel t h =
      let pos' = pos_after pos vel (d.div (d.sub v vel) k.0) k.0 in
      let cruise = cruise_of k k' in
      omega (
        arith,
        length-build (k' ∷ knots) vs (d.add pos' (d.mul v cruise)) v (d.add (d.add t k.0) cruise)
            (omega (arith, h)),
      )

  length-deltas : (w : List W) (m : ℕ) → length w ≡ m + 1 → length (deltas w) ≡ m
  unfolding deltas
  length-deltas [] m h = omega (arith, h)
  length-deltas (a ∷ []) m h = omega (arith, h)
  length-deltas (a ∷ b ∷ w) zero h = omega (arith, h)
  length-deltas (a ∷ b ∷ w) (suc m) h = omega (arith, length-deltas (b ∷ w) m (omega (arith, h)))

  pub length-pace :
      (m : ℕ) (headroom : W) (ws : List (List W)) (ls : List (AxisLimits W)) (ts : List W)
      → All (λ w. length w ≡ m + 1) ws
      → length ts ≡ m
      → length (pace headroom ws ls ts) ≡ m
  unfolding pace
  length-pace m headroom [] ls ts a h = h
  length-pace m headroom (w ∷ ws) [] ts a h = h
  length-pace m headroom (w ∷ ws) (l ∷ ls) ts (e, a) h =
      length-pace m headroom ws ls _ a
        (length-zip_with _ ts (deltas w) (h ∙ sym (length-deltas w m e)) ∙ h)

  length-velocities :
      (m : ℕ) (ts w : List W) → length ts ≡ m → length w ≡ m + 1 → length (velocities ts w) ≡ m
  unfolding velocities
  length-velocities m ts w h e =
      length-zip_with _ (deltas w) ts (length-deltas w m e ∙ sym h) ∙ length-deltas w m e

  length-stretch : (ts tb : List W) → length (stretch ts tb).0 ≡ length ts
  unfolding stretch
  length-stretch [] tb = refl
  length-stretch (t ∷ ts) [] = refl
  length-stretch (t ∷ ts) (b ∷ []) = refl
  length-stretch (t ∷ ts) (b ∷ b' ∷ tb) = ground (arith, length-stretch ts (b' ∷ tb))

  length-blend_times :
      (m : ℕ) (headroom : W) (vs : List (List W)) (ls : List (AxisLimits W)) (tb : List W)
      → All (λ v. length v ≡ m) vs
      → length tb ≡ m + 1
      → length (blend_times headroom vs ls tb) ≡ m + 1
  unfolding blend_times
  length-blend_times m headroom [] ls tb a h = h
  length-blend_times m headroom (v ∷ vs) [] tb a h = h
  length-blend_times m headroom (v ∷ vs) (l ∷ ls) tb (e, a) h =
      let jumps =
        length-zip_with (λ v_out v_in. d.sub v_out v_in) (v ++ nought ∷ []) (nought ∷ v)
          (omega (arith, length-append v (nought ∷ []))) in
      length-blend_times m headroom vs ls _ a
        (length-zip_with _ tb _ (omega (arith, h, jumps, e, length-append v (nought ∷ []))) ∙ h)

  -- A timing of so many segments, for so many axes.
  pub record IsTiming (n m : ℕ) (t : Timing W) : Type 0 where
    pub segments : length t.segments ≡ m
    pub axes : length t.speeds ≡ n
    pub speeds : All (λ v. length v ≡ m) t.speeds
    pub blends : length t.blends ≡ m + 1

  All-velocities :
      (m : ℕ) (ts : List W) (ws : List (List W))
      → length ts ≡ m
      → All (λ w. length w ≡ m + 1) ws
      → All (λ v. length v ≡ m) (map (velocities ts) ws)
  All-velocities m ts [] h a = tt
  All-velocities m ts (w ∷ ws) h (e, a) = (length-velocities m ts w h e, All-velocities m ts ws h a)

  timing_of-IsTiming :
      (m : ℕ) (headroom : W) (ws : List (List W)) (ls : List (AxisLimits W)) (ts : List W)
      → width ws ≡ m + 1
      → All (λ w. length w ≡ m + 1) ws
      → length ts ≡ m
      → IsTiming (length ws) m (timing_of headroom ws ls ts)
  unfolding timing_of
  timing_of-IsTiming m headroom ws ls ts k a h = record {
    segments = h;
    axes = length-map ws (velocities ts);
    speeds = All-velocities m ts ws h a;
    blends =
        length-blend_times m headroom (map (velocities ts) ws) ls _ (All-velocities m ts ws h a)
          (length-replicate (width ws) (d.decimal 1 9) ∙ k);
  }

  pub settle_timing-IsTiming :
      (n m : ℕ) (headroom : W) (ws : List (List W)) (ls : List (AxisLimits W)) (ts : List W)
      → width ws ≡ m + 1
      → All (λ w. length w ≡ m + 1) ws
      → length ts ≡ m
      → IsTiming (length ws) m (settle_timing n headroom ws ls ts)
  unfolding settle_timing
  settle_timing-IsTiming zero m headroom ws ls ts k a h =
      let v = timing_of-IsTiming m headroom ws ls ts k a h in
      record {
        segments = length-stretch ts _ ∙ h;
        axes = v.axes;
        speeds = v.speeds;
        blends = v.blends;
      }
  settle_timing-IsTiming (suc n) m headroom ws ls ts k a h =
      let v = timing_of-IsTiming m headroom ws ls ts k a h in
      let tb = (timing_of headroom ws ls ts).blends in
      if-both (λ (t : Timing W). IsTiming (length ws) m t) (stretch ts tb).1
        (record {
          segments = length-stretch ts tb ∙ h;
          axes = v.axes;
          speeds = v.speeds;
          blends = v.blends;
        })
        (settle_timing-IsTiming n m headroom ws ls (stretch ts tb).0 k a (length-stretch ts tb ∙ h))

  length-knots_from : (tau : W) (ts : List W) → length (knots_from tau ts) ≡ length ts + 1
  unfolding knots_from
  length-knots_from tau [] = refl
  length-knots_from tau (t ∷ ts) = omega (arith, length-knots_from (d.add tau t) ts)

  -- The pieces of each axis of `m` segments: a blend at each waypoint and a cruise between, with no
  -- gap from rest at the first waypoint on.
  abbrev pub Timelines : ℕ → List (List W) → List (List (Piece W)) → Type ℓ
  Timelines m [] [] = Unit
  Timelines m [] (ps ∷ pss) = Unit {ℓ} × ⊥
  Timelines m (w ∷ ws) [] = Unit {ℓ} × ⊥
  Timelines m ([] ∷ ws) (ps ∷ pss) = Unit {ℓ} × ⊥
  Timelines m ((x ∷ w) ∷ ws) (ps ∷ pss) =
      (length ps ≡ m + m + 1) × Joined nought x nought ps × Timelines m ws pss

  build-Timelines :
      (m : ℕ) (knots : List (W × W)) (ws vs : List (List W))
      → length knots ≡ m + 1
      → length vs ≡ length ws
      → All (λ w. length w ≡ m + 1) ws
      → All (λ v. length v ≡ m) vs
      → Timelines m ws (zip_with (λ w v. build knots v (first_or_zero w) nought nought) ws vs)
  unfolding first_or_zero
  build-Timelines m knots [] [] h n e a = tt
  build-Timelines m knots [] (v ∷ vs) h n e a = absurd (omega (arith, n))
  build-Timelines m knots (w ∷ ws) [] h n e a = absurd (omega (arith, n))
  build-Timelines m knots ([] ∷ ws) (v ∷ vs) h n (e, es) a = absurd (omega (arith, e))
  build-Timelines m knots ((x ∷ w) ∷ ws) (v ∷ vs) h n (e, es) (long, a) = (
    length-build knots v x nought nought (omega (arith, h, long)) ∙ ap (λ k. k + k + 1) long,
    build-Joined knots v x nought nought (omega (arith, h, long)),
    build-Timelines m knots ws vs h (omega (arith, n)) es a,
  )

  -- A plan through these waypoints, in so many segments.
  pub record IsPlan (m : ℕ) (ws : List (List W)) (p : SyncBlendPlan W) : Type ℓ where
    pub counted : p.n_axes ≡ length ws
    pub axes : length p.pieces ≡ length ws
    pub timelines : Timelines m ws p.pieces

  pub assemble-IsPlan :
      (m : ℕ) (ws : List (List W)) (t : Timing W)
      → IsTiming (length ws) m t
      → All (λ w. length w ≡ m + 1) ws
      → IsPlan m ws (assemble ws t)
  unfolding assemble
  assemble-IsPlan m ws t v even =
      let taus = knots_from (half (first_or_zero t.blends)) t.segments in
      let long = length-knots_from (half (first_or_zero t.blends)) t.segments in
      record {
        counted = refl;
        axes = length-zip_with _ ws t.speeds (sym v.axes);
        timelines =
            build-Timelines m (zip_with (λ b tau. (b, tau)) t.blends taus) ws t.speeds
              (length-zip_with _ t.blends taus (omega (arith, long, v.blends, v.segments))
                ∙ v.blends)
              v.axes even v.speeds;
      }
