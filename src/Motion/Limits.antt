-- ===== src/Motion/Limits.antt =====
-- core/limits.hpp and core/state.hpp: the limits of an axis, and its states.
use robonode.Core.Double.{Double, Finite, ◌≼◌}

pub record AxisLimits {ℓ} (W : Type ℓ) : Type ℓ where
  pub position_min : W
  pub position_max : W
  pub velocity_max : W
  pub acceleration_max : W
  pub jerk_max : W

pub record State {ℓ} (W : Type ℓ) : Type ℓ where
  pub position : W
  pub velocity : W
  pub acceleration : W

pub data SafetyState : Type 0 where
  normal reduced protective_stop e_stop fault : SafetyState

pub record AxisState {ℓ} (W : Type ℓ) : Type ℓ where
  pub position : W
  pub velocity : W
  pub safety : SafetyState

module _ {ℓ} {W : Type ℓ} ⦃d : Double W⦄ where
  -- The travel of an axis, and a position within it.
  pub record IsTravel (limits : AxisLimits W) : Type ℓ where
    pub finite_min : Finite limits.position_min
    pub finite_max : Finite limits.position_max
    pub ordered : limits.position_min ≼ limits.position_max

  abbrev pub Within : AxisLimits W → W → Type 0
  Within limits x = (limits.position_min ≼ x) × (x ≼ limits.position_max)
