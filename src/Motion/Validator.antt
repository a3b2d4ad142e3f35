-- ===== src/Motion/Validator.antt =====
-- motion/trajectory_validator.hpp: a trajectory is refused before anything moves.
pub mod Accepts
use robonode.Prelude.{
  ℕ, ◌+◌, Bool, true, false, not, ◌||◌, if◌then◌else◌, Option, List, [], ◌∷◌, length, get_elem?,
  ◌==◌, none, some, Text,
}
use robonode.Core.Result.{Result, ok, err, ◌>>=◌, ◌>>◌, guard, Status, success}
use robonode.Core.Double.{Double, nought, greatest}
use robonode.Motion.Limits.{AxisLimits}

-- The part of `Settings::Motion` that the validator reads.
pub record MotionSettings {ℓ} (W : Type ℓ) : Type ℓ where
  pub limit_tolerance : W
  pub max_duration_s : W

-- How an axis is named: by its id, or by its index.
pub data AxisName : Type 0 where
  id : Text → AxisName
  axis : ℕ → AxisName

pub data PlanError : Type 0 where
  waypoints_axes_mismatch too_long : PlanError
  empty_waypoints non_finite outside_travel : AxisName → PlanError

-- `name(ids, i)`
unfoldable pub name_of : List Text → ℕ → AxisName
name_of ids i = elim (get_elem? ids i) [ some t ↦ id t | none ↦ axis i ]

module _ {ℓ} {W : Type ℓ} ⦃d : Double W⦄ (cfg : MotionSettings W) where
  unfoldable pub tolerance : AxisLimits W → W
  tolerance lim = d.mul cfg.limit_tolerance (d.abs (d.sub lim.position_max lim.position_min))

  unfoldable pub outside : AxisLimits W → W → Bool
  unfolding tolerance
  outside lim q =
      d.lt q (d.sub lim.position_min (tolerance lim))
      || d.lt (d.add lim.position_max (tolerance lim)) q

  -- The loop of `check_axis`.
  unfoldable pub check_points : List W → AxisLimits W → AxisName → Status PlanError
  unfolding outside
  check_points [] lim name = success
  check_points (q ∷ wp) lim name = do
    guard (d.is_finite q) (non_finite name)
    guard (not (outside lim q)) (outside_travel name)
    check_points wp lim name

  unfoldable pub check_axis : List W → AxisLimits W → AxisName → Status PlanError
  unfolding check_points
  check_axis [] lim name = err (empty_waypoints name)
  check_axis (q ∷ wp) lim name = check_points (q ∷ wp) lim name

module _ {ℓ} {W : Type ℓ} ⦃d : Double W⦄ where
  -- The loop of `travel_time`, from the waypoint `last` and the distance so far.
  unfoldable pub travel : W → List W → W → W
  travel last [] distance = distance
  travel last (q ∷ wp) distance = travel q wp (d.add distance (d.abs (d.sub q last)))

  unfoldable pub distance_of : List W → W
  unfolding travel
  distance_of [] = nought
  distance_of (q ∷ wp) = travel q wp nought

  unfoldable pub travel_time : List W → AxisLimits W → W
  unfolding distance_of
  travel_time wp lim =
      if d.le lim.velocity_max nought then nought else d.div (distance_of wp) lim.velocity_max

module _ {ℓ} {W : Type ℓ} ⦃d : Double W⦄ (cfg : MotionSettings W) where
  -- The loop of `check` from the axis `i`, with `worst_s` so far; its end is `worst_s`. The two lists
  -- have one length.
  unfoldable pub check_axes :
      List (List W) → List (AxisLimits W) → List Text → ℕ → W → Result PlanError W
  unfolding check_axis travel_time name_of greatest
  check_axes [] limits ids i worst = ok worst
  check_axes (wp ∷ wps) [] ids i worst = ok worst
  check_axes (wp ∷ wps) (lim ∷ limits) ids i worst = do
    check_axis cfg wp lim (name_of ids i)
    check_axes wps limits ids (i + 1) (greatest worst (travel_time wp lim))

  unfoldable pub check : List (List W) → List (AxisLimits W) → List Text → Status PlanError
  unfolding check_axes
  check waypoints limits ids = do
    guard (length waypoints == length limits) waypoints_axes_mismatch
    worst ← check_axes waypoints limits ids 0 nought
    guard (not (d.lt cfg.max_duration_s worst)) too_long
