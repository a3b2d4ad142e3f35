-- ===== src/Celld/Driver.antt =====
-- What celld/cell.hpp asks of the drivers: core/lifecycle.hpp, motion/driver_registry.hpp,
-- motion/axis_adapter.hpp and motion/controller.hpp, over the state `S` of everything behind them. An
-- adapter is known by a handle `A`.
use robonode.Prelude.{ℕ, ◌≡◌, ◌≢◌, Bool, List, Text}
use robonode.Core.Map.{Map}
use robonode.Core.Result.{Result, Status, success}
use robonode.Motion.Limits.{AxisLimits, State, AxisState}

pub data Lifecycle : Type 0 where
  unconfigured configuring inactive active degraded faulty : Lifecycle

-- celld/descriptor.hpp
pub record Descriptor {ℓ} (W : Type ℓ) : Type ℓ where
  pub id : Text
  pub driver : Text
  pub limits : AxisLimits W
  pub command_rate_hz : W
  pub simulated : Bool
  pub config : Map Text

pub record DriverContext {ℓ} (W : Type ℓ) : Type ℓ where
  pub id : Text
  pub limits : AxisLimits W
  pub config : Map Text

pub record Drivers {ℓ κ μ} (W : Type ℓ) (S : Type κ) (A : Type μ) : Type (ℓ ⊔ κ ⊔ μ) where
  pub make : Text → DriverContext W → S → S × Result Text A
  pub configure : A → S → S × Status Text
  pub activate : A → S → S × Status Text
  pub deactivate : A → S → S × Status Text
  pub lifecycle : A → S → Lifecycle
  pub read : A → S → AxisState W
  pub write_setpoint : A → W → S → S
  pub step_all : List A → W → S → S

-- The controllers of a run, in the order of the axes.
pub record Controllers {ℓ κ} (W : Type ℓ) (S : Type κ) : Type (ℓ ⊔ κ) where
  pub count : ℕ
  pub command : ℕ → State W → AxisState W → W → S → W × S
  pub reset : ℕ → W → S → S

-- What core/lifecycle.hpp says of its verbs, and that an adapter is not touched by the calls of
-- others.
pub record IsLawful {ℓ κ μ} {W : Type ℓ} {S : Type κ} {A : Type μ} (io : Drivers W S A)
    : Type (ℓ ⊔ κ ⊔ μ) where
  pub deactivate_inactive :
      (a : A) (s : S)
      → (io.deactivate a s).1 ≡ success
      → io.lifecycle a (io.deactivate a s).0 ≡ inactive
  pub make_frame :
      (driver : Text) (ctx : DriverContext W) (a : A) (s : S)
      → io.lifecycle a (io.make driver ctx s).0 ≡ io.lifecycle a s
  pub configure_frame :
      (a b : A) (s : S) → a ≢ b → io.lifecycle a (io.configure b s).0 ≡ io.lifecycle a s
