-- ===== src/Core/Double.antt =====
-- What the code does with a `double`: the operations are those of the hardware, so they are a
-- parameter of the models that use them. The laws are those of IEEE comparison and rounding that
-- a proof needs; `Core.Double.Whole` meets them.
pub mod Whole
use robonode.Prelude.{ℕ, Bool, true, false, ◌≡◌, ◌⊎◌, if◌then◌else◌}

-- `decimal m k` is the literal m · 10⁻ᵏ, and `le` is `<=`, false of NaN. `trunc` and
-- `of_nat` are the casts to and from `uint64_t`.
pub record Double {ℓ} (W : Type ℓ) : Type ℓ where
  pub decimal : ℕ → ℕ → W
  pub add : W → W → W
  pub sub : W → W → W
  pub mul : W → W → W
  pub div : W → W → W
  pub neg : W → W
  pub abs : W → W
  pub copysign : W → W → W
  pub lt : W → W → Bool
  pub le : W → W → Bool
  pub eq : W → W → Bool
  pub is_finite : W → Bool
  pub trunc : W → ℕ
  pub of_nat : ℕ → W

module _ {ℓ} {W : Type ℓ} ⦃d : Double W⦄ where
  abbrev pub nought : W
  nought = d.decimal 0 0

  abbrev pub one : W
  one = d.decimal 1 0

  -- `std::clamp`
  unfoldable pub clamp : W → W → W → W
  clamp x lo hi = if d.lt x lo then lo else if d.lt hi x then hi else x

  -- `std::min` and `std::max`
  unfoldable pub least : W → W → W
  least a b = if d.lt b a then b else a

  unfoldable pub greatest : W → W → W
  greatest a b = if d.lt a b then b else a

  abbrev pub Finite : W → Type 0
  Finite x = d.is_finite x ≡ true

  infix 4 ◌≼◌
  abbrev pub ◌≼◌ : W → W → Type 0
  x ≼ y = d.le x y ≡ true

-- Finite numbers are totally ordered. A step from `a` towards `p` that is shorter than the rounded
-- distance does not pass `p`, since rounding keeps the order.
pub record IsOrdered {ℓ} (W : Type ℓ) ⦃d : Double W⦄ : Type ℓ where
  pub le_refl : (x : W) → Finite x → x ≼ x
  pub le_trans : (x y z : W) → x ≼ y → y ≼ z → x ≼ z
  pub le_of_not_lt : (x y : W) → Finite x → Finite y → d.lt x y ≡ false → y ≼ x
  pub finite_between : (x y z : W) → Finite x → Finite z → x ≼ y → y ≼ z → Finite y
  pub step_between :
      (a p m : W)
      → Finite a
      → Finite p
      → nought ≼ m
      → d.lt m (d.abs (d.sub p a)) ≡ true
      → let q = d.add a (d.copysign m (d.sub p a)) in ((a ≼ q) × (q ≼ p)) ⊎ ((p ≼ q) × (q ≼ a))
