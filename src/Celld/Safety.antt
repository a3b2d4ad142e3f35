-- ===== src/Celld/Safety.antt =====
-- Within what limits the runs of celld/cell.hpp stay.
pub mod Waypoints
use robonode.Prelude.{
  ℕ, suc, ◌≡◌, refl, sym, Bool, true, ◌||◌, ◌==◌, Option, none, some, List, [], ◌∷◌, length, map,
  get_elem?, All, arith, if-both,
}
use mathlib.Core.Path.{subst}
use robonode.Core.Double.{Double, IsOrdered, nought, ◌≼◌}
use robonode.Core.Result.{
  Result, ok, err, Post, returns, raises, Post-if, Post-guard, Post-bind, Post-weaken, Post-ok,
}
use robonode.Motion.Limits.{AxisLimits, Within, IsTravel}
use robonode.Motion.Blend.{make, SyncBlendPlan, BlendError}
use robonode.Motion.Governor.{dp_max}
use robonode.Motion.Executive.{TelemetryRow}
use robonode.Motion.Executive.Safety.{Travels, Unmoved, RowsWithin, Starts, run-RowsWithin}
use robonode.Celld.Driver.{
  Lifecycle, unconfigured, configuring, inactive, active, degraded, faulty, Drivers, Controllers,
}
use robonode.Celld.Cell.{Node, Cell, not_active, gather, check_active, is_active}
use robonode.Celld.Run.{
  Sources, Ran, plant_of, read_at, reset_at, adapters_of, limits_of, channel_of, period_of,
  run_axes, plan_source, run_planned, run_waypoints,
}

module _ {ℓ} {W : Type ℓ} ⦃d : Double W⦄ where
  -- Each governed position of a cycle lies within the limits of its axis.
  abbrev pub InLimits : List (AxisLimits W) → List (TelemetryRow W) → Type 0
  InLimits [] [] = Unit
  InLimits [] (r ∷ rs) = ⊥
  InLimits (l ∷ ls) [] = ⊥
  InLimits (l ∷ ls) (r ∷ rs) = Within l r.governed_position × InLimits ls rs

  -- The travels are not empty, and the largest steps in the period `dt` not negative.
  abbrev pub Moves : W → List (AxisLimits W) → Type ℓ
  Moves dt [] = Unit
  Moves dt (l ∷ ls) = IsTravel l × (nought ≼ dp_max l dt) × Moves dt ls

module _ {ℓ κ μ} {W : Type ℓ} {S : Type κ} {A : Type μ} ⦃d : Double W⦄ (io : Drivers W S A) where
  -- Each node is governed by the limits of its descriptor, and stands within them.
  abbrev pub Stands : S → List (Node W A) → Type ℓ
  Stands s [] = Unit
  Stands s (n ∷ ns) =
      (n.governor.limits ≡ n.descriptor.limits)
      × Within n.descriptor.limits (Drivers.read io n.adapter s).position
      × Stands s ns

  -- Every node is active.
  abbrev pub AllActive : S → List (Node W A) → Type 0
  AllActive s [] = Unit
  AllActive s (n ∷ ns) = (Drivers.lifecycle io n.adapter s ≡ active) × AllActive s ns

  -- A controller's reset moves no axis.
  abbrev pub Still : Controllers W S → Type (ℓ ⊔ κ ⊔ μ)
  Still ctl =
      (i : ℕ) (x : W) (a : A) (s : S)
      → Drivers.read io a (Controllers.reset ctl i x s) ≡ Drivers.read io a s

module _ {ℓ κ μ} {W : Type ℓ} {S : Type κ} {A : Type μ} ⦃d : Double W⦄ (laws : IsOrdered W)
    (io : Drivers W S A) (ctl : Controllers W S) (sources : Sources W S) where
  read_at-reset :
      (o : Option A) (i : ℕ) (x : W) (s : S)
      → Still io ctl
      → read_at io o (Controllers.reset ctl i x s) ≡ read_at io o s
  unfolding read_at
  read_at-reset none i x s u = refl
  read_at-reset (some a) i x s u = u i x a s

  -- The adapters of the nodes stand in the list from the index `i` on.
  abbrev Indexed : ℕ → List A → List (Node W A) → Type μ
  Indexed i all [] = Unit
  Indexed i all (n ∷ ns) = (get_elem? all i ≡ some n.adapter) × Indexed (suc i) all ns

  Indexed-cons :
      (i : ℕ) (a : A) (all : List A) (ns : List (Node W A))
      → Indexed i all ns
      → Indexed (suc i) (a ∷ all) ns
  Indexed-cons i a all [] x = tt
  Indexed-cons i a all (n ∷ ns) (e, x) = (e, Indexed-cons (suc i) a all ns x)

  adapters_of-Indexed : (ns : List (Node W A)) → Indexed 0 (adapters_of io ns) ns
  adapters_of-Indexed [] = tt
  adapters_of-Indexed (n ∷ ns) =
      (refl, Indexed-cons 0 n.adapter (adapters_of io ns) ns (adapters_of-Indexed ns))

  module _ (duration dt stop_time : W) where
    Stands-Starts :
        (i : ℕ) (all : List A) (ns : List (Node W A)) (s : S)
        → Indexed i all ns
        → Stands io s ns
        → Starts laws
            (plant_of io ctl sources all)
            duration
            dt
            stop_time
            i
            (limits_of io ns)
            (map (channel_of io) ns)
            s
    unfolding plant_of channel_of read_at
    Stands-Starts i all [] s x h = tt
    Stands-Starts i all (n ∷ ns) s (e, x) (same, w, h) = (
      same,
      subst (λ o. Within n.descriptor.limits (read_at io o s).position) (sym e) w,
      subst
          (λ k.
            Starts laws (plant_of io ctl sources all) duration dt stop_time k (limits_of io ns)
              (map (channel_of io) ns) s)
          (omega arith) (Stands-Starts (suc i) all ns s x h),
    )

    Moves-Travels :
        (ls : List (AxisLimits W)) (all : List A)
        → Moves dt ls
        → Travels laws (plant_of io ctl sources all) duration dt stop_time ls
    Moves-Travels [] all t = tt
    Moves-Travels (l ∷ ls) all (travel, step, t) = (travel, step, Moves-Travels ls all t)

    RowsWithin-InLimits :
        (ls : List (AxisLimits W)) (all : List A) (row : List (TelemetryRow W))
        → RowsWithin laws (plant_of io ctl sources all) duration dt stop_time ls row
        → InLimits ls row
    RowsWithin-InLimits [] all [] r = tt
    RowsWithin-InLimits [] all (x ∷ row) r = r
    RowsWithin-InLimits (l ∷ ls) all [] r = r
    RowsWithin-InLimits (l ∷ ls) all (x ∷ row) (w, r) = (w, RowsWithin-InLimits ls all row r)

    rows-InLimits :
        (ls : List (AxisLimits W)) (all : List A) (rows : List (List (TelemetryRow W)))
        → All (RowsWithin laws (plant_of io ctl sources all) duration dt stop_time ls) rows
        → All (InLimits ls) rows
    rows-InLimits ls all [] r = tt
    rows-InLimits ls all (row ∷ rows) (x, r) =
        (RowsWithin-InLimits ls all row x, rows-InLimits ls all rows r)

    Still-Unmoved :
        (all : List A)
        → Still io ctl
        → Unmoved laws (plant_of io ctl sources all) duration dt stop_time
    unfolding plant_of reset_at
    Still-Unmoved all u i j x p =
        if-both (λ (s : S). read_at io (get_elem? all i) s ≡ read_at io (get_elem? all i) p)
          (ctl.count == 0) refl (read_at-reset (get_elem? all i) j x p u)

  run_axes-InLimits :
      (c : Cell W S A) (duration rate settle stop_time : W) (requested : ℕ → Bool)
      → Moves (period_of io rate) (limits_of io c.nodes)
      → Still io ctl
      → Stands io c.world c.nodes
      → Post
          (λ ran. All (InLimits (limits_of io c.nodes)) (Ran.rows ran))
          (λ _. Unit)
          (run_axes io ctl sources duration rate stop_time settle requested c)
  unfolding run_axes
  run_axes-InLimits c duration rate settle stop_time requested t u h =
      let all = adapters_of io c.nodes in
      let dt = period_of io rate in
      Post-if (length c.nodes == 0) (raises tt) (
        returns (
          rows-InLimits duration dt stop_time (limits_of io c.nodes) all _ (
            run-RowsWithin laws (plant_of io ctl sources all) duration dt stop_time
              (limits_of io c.nodes) settle requested (map (channel_of io) c.nodes) c.world
              (Moves-Travels duration dt stop_time (limits_of io c.nodes) all t)
              (Still-Unmoved duration dt stop_time all u)
              (Stands-Starts duration dt stop_time 0 all c.nodes c.world
                (adapters_of-Indexed c.nodes) h))))
