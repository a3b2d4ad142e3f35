-- ===== src/Motion/Governor/Envelope.antt =====
-- The governor of motion/governor.hpp never lets a setpoint out of the travel of its axis.
use mathlib.Core.Path.{subst}
use robonode.Prelude.{
  sym, ◌≡◌, refl, ◌⊎◌, inl, inr, Bool, not, ◌||◌, List, [], ◌∷◌, arith, Bool-cases, All,
}
use robonode.Core.Double.{Double, IsOrdered, Finite, ◌≼◌, nought, clamp}
use robonode.Motion.Limits.{AxisLimits, IsTravel, Within}
use robonode.Motion.Governor.{Governor, dp_max, limit_rate, apply, apply_all}

module _ {ℓ} {W : Type ℓ} ⦃d : Double W⦄ (laws : IsOrdered W) where
  open laws use {le_refl, le_trans, le_of_not_lt, finite_between, step_between}

  clamp-Within :
      (limits : AxisLimits W) (x : W)
      → IsTravel limits
      → Finite x
      → Within limits (clamp x limits.position_min limits.position_max)
  unfolding clamp
  clamp-Within limits x t f = ground (
    arith,
    le_refl limits.position_min t.finite_min,
    le_refl limits.position_max t.finite_max,
    le_of_not_lt x limits.position_min f t.finite_min,
    le_of_not_lt limits.position_max x t.finite_max f,
  )

  -- What lies between two positions of the travel does too.
  between-Within :
      (limits : AxisLimits W) (a p q : W)
      → Within limits a
      → Within limits p
      → ((a ≼ q) × (q ≼ p)) ⊎ ((p ≼ q) × (q ≼ a))
      → Within limits q
  between-Within limits a p q (la, ua) (lp, up) (inl (h, k)) =
      (le_trans _ _ _ la h, le_trans _ _ _ k up)
  between-Within limits a p q (la, ua) (lp, up) (inr (h, k)) =
      (le_trans _ _ _ lp h, le_trans _ _ _ k ua)

  -- The limits of the first governor are kept by the second, whose last output is within them.
  abbrev pub Keeps : Governor W → Governor W → Type ℓ
  Keeps g g' = (g'.limits ≡ g.limits) × Within g.limits g'.prev

  Finite-Within : (limits : AxisLimits W) (x : W) → IsTravel limits → Within limits x → Finite x
  Finite-Within limits x t (l, u) = finite_between _ _ _ t.finite_min t.finite_max l u

  limit_rate-Keeps :
      (g : Governor W) (p : W) (c : Bool) (bound : W)
      → IsTravel g.limits
      → nought ≼ bound
      → Within g.limits g.prev
      → Within g.limits p
      → Keeps g (limit_rate g p c bound).0 × Within g.limits (limit_rate g p c bound).1.position
  unfolding limit_rate
  limit_rate-Keeps g p c bound t pos w wp =
      elim (Bool-cases (d.lt bound (d.abs (d.sub p g.prev)))) [
        | inl far ↦
            let near =
              step_between g.prev p bound (Finite-Within _ _ t w) (Finite-Within _ _ t wp) pos
                far in
            let w' = between-Within g.limits g.prev p _ w wp near in rw far ((refl, w'), w')
        | inr near ↦ rw near ((refl, wp), wp)
      ]

  -- Whatever setpoint and period it is given (NaN and infinities included), a governor whose last
  -- output lies in the travel of its axis puts out a position that does, and keeps its limits, if the
  -- travel is not empty and the largest step, computed from the velocity limit, is not negative.
  pub apply-Keeps :
      (g : Governor W) (setpoint dt : W)
      → IsTravel g.limits
      → nought ≼ dp_max g.limits dt
      → Within g.limits g.prev
      → let (g', r) = apply setpoint dt g in Keeps g g' × Within g.limits r.position
  unfolding apply
  apply-Keeps g setpoint dt t pos w =
      elim (Bool-cases (not (d.is_finite setpoint) || not (d.lt nought dt))) [
        | inl rejected ↦ rw rejected ((refl, w), w)
        | inr taken ↦
            rw taken
              (limit_rate-Keeps g _ _ _ t pos w (clamp-Within g.limits setpoint t (ground arith)))
      ]

  -- So whatever setpoints it is given, with whatever periods, every output lies in the travel.
  apply_all-Within :
      (inputs : List (W × W)) (g : Governor W)
      → IsTravel g.limits
      → All (λ (i : W × W). nought ≼ dp_max g.limits i.1) inputs
      → Within g.limits g.prev
      → All (Within g.limits) (apply_all inputs g)
  unfolding apply_all
  apply_all-Within [] g t pos w = tt
  apply_all-Within ((setpoint, dt) ∷ inputs) g t (p, ps) w =
      let ((same, w'), now) = apply-Keeps g setpoint dt t p w in
      let g' = (apply setpoint dt g).0 in
      (
        now,
        subst (λ l. All (Within l) (apply_all inputs g')) same
            (apply_all-Within inputs g' (subst IsTravel (sym same) t)
              (subst (λ l. All (λ (i : W × W). nought ≼ dp_max l i.1) inputs) (sym same) ps)
              (subst (λ l. Within l g'.prev) (sym same) w')),
      )
