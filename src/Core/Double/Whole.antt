-- ===== src/Core/Double/Whole.antt =====
-- Integers meet the laws of `Core.Double`, with one more value for NaN: so the theorems that assume
-- them can be used. A fraction is cut off.
use robonode.Prelude.{
  ℕ, ◌⊎◌, inl, inr, Bool-cases, ◌+◌, ◌/◌, ◌^◌, ◌≡◌, Bool, true, false, Option, none, some, arith,
  if◌then◌else◌, ◌&&◌,
}
use robonode.Prelude.Int.{ℤ, pos, negsuc, pos_part, neg_part, sub_ℕ, ◌+ℤ◌, ◌-ℤ◌, ◌*ℤ◌, ltb_ℤ, leb_ℤ}
use robonode.Core.Double.{Double, IsOrdered, Finite, nought, ◌≼◌}

abbrev pub Whole : Type 0
Whole = Option ℤ

abbrev lift₂ : (ℤ → ℤ → ℤ) → Whole → Whole → Whole
lift₂ f none y = none
lift₂ f (some a) none = none
lift₂ f (some a) (some b) = some (f a b)

abbrev test₂ : (ℤ → ℤ → Bool) → Whole → Whole → Bool
test₂ f none y = false
test₂ f (some a) none = false
test₂ f (some a) (some b) = f a b

abbrev lift₁ : (ℤ → ℤ) → Whole → Whole
lift₁ f none = none
lift₁ f (some a) = some (f a)

abbrev magnitude : ℤ → ℕ
magnitude a = pos_part a + neg_part a

-- Rounds towards 0; division by 0 gives 0.
abbrev quotient : ℤ → ℤ → ℤ
quotient a b =
    if ltb_ℤ (a *ℤ b) (pos 0)
    then sub_ℕ 0 (magnitude a / magnitude b)
    else pos (magnitude a / magnitude b)

abbrev with_sign : ℤ → ℤ → ℤ
with_sign m s = if ltb_ℤ s (pos 0) then sub_ℕ 0 (magnitude m) else pos (magnitude m)

instance abbrev pub whole : Double Whole
whole = record {
  decimal = λ m k. some (pos (m / 10 ^ k));
  add = lift₂ ◌+ℤ◌;
  sub = lift₂ ◌-ℤ◌;
  mul = lift₂ ◌*ℤ◌;
  div = lift₂ quotient;
  neg = lift₁ (λ a. pos 0 -ℤ a);
  abs = lift₁ (λ a. pos (magnitude a));
  copysign = lift₂ with_sign;
  lt = test₂ ltb_ℤ;
  le = test₂ leb_ℤ;
  eq = test₂ (λ a b. leb_ℤ a b && leb_ℤ b a);
  is_finite = λ x. elim x [ none ↦ false | some a ↦ true ];
  trunc = λ x. elim x [ none ↦ 0 | some a ↦ pos_part a ];
  of_nat = λ n. some (pos n);
}

refl_law : (x : Whole) → whole.is_finite x ≡ true → whole.le x x ≡ true
refl_law none h = h
refl_law (some a) h = ground arith

-- A step of `n` from `a`, up and down.
up :
    (a p : ℤ) (n : ℕ)
    → ltb_ℤ (p -ℤ a) (pos 0) ≡ false
    → ltb_ℤ (pos n) (pos (magnitude (p -ℤ a))) ≡ true
    → (leb_ℤ a (a +ℤ with_sign (pos n) (p -ℤ a)) ≡ true)
      × (leb_ℤ (a +ℤ with_sign (pos n) (p -ℤ a)) p ≡ true)
up (pos a) (pos p) n s h = ground arith
up (pos a) (negsuc p) n s h = ground arith
up (negsuc a) (pos p) n s h = ground arith
up (negsuc a) (negsuc p) n s h = ground arith

down :
    (a p : ℤ) (n : ℕ)
    → ltb_ℤ (p -ℤ a) (pos 0) ≡ true
    → ltb_ℤ (pos n) (pos (magnitude (p -ℤ a))) ≡ true
    → (leb_ℤ p (a +ℤ with_sign (pos n) (p -ℤ a)) ≡ true)
      × (leb_ℤ (a +ℤ with_sign (pos n) (p -ℤ a)) a ≡ true)
down (pos a) (pos p) n s h = ground arith
down (pos a) (negsuc p) n s h = ground arith
down (negsuc a) (pos p) n s h = ground arith
down (negsuc a) (negsuc p) n s h = ground arith

step_law :
    (a p m : Whole)
    → Finite a
    → Finite p
    → nought ≼ m
    → whole.lt m (whole.abs (whole.sub p a)) ≡ true
    → let q = whole.add a (whole.copysign m (whole.sub p a)) in
      ((a ≼ q) × (q ≼ p)) ⊎ ((p ≼ q) × (q ≼ a))
step_law none p m f g h k = absurd (ground arith)
step_law (some a) none m f g h k = absurd (ground arith)
step_law (some a) (some p) none f g h k = absurd (ground arith)
step_law (some a) (some p) (some (negsuc n)) f g h k = absurd (ground arith)
step_law (some a) (some p) (some (pos n)) f g h k = elim (Bool-cases (ltb_ℤ (p -ℤ a) (pos 0))) [
  | inl below ↦ inr (down a p n below k)
  | inr above ↦ inl (up a p n above k)
]

pub Whole-IsOrdered : IsOrdered Whole
Whole-IsOrdered = record {
  le_refl = refl_law;
  le_trans = λ x y z h k. ground arith;
  le_of_not_lt = λ x y f g h. ground arith;
  finite_between = λ x y z f g h k. ground arith;
  step_between = step_law;
}
