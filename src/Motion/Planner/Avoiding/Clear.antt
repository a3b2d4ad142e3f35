-- ===== src/Motion/Planner/Avoiding/Clear.antt =====
-- What the avoiding planner of motion/planner.hpp emits is clear.
use robonode.Prelude.{
  ℕ, zero, suc, ◌+◌, ◌<◌, ◌≡◌, refl, Bool, true, false, Bool-cases, inl, inr, List, arith,
}
use mathlib.Core.Path.{subst}
use robonode.Core.Double.{Double}
use robonode.Core.Geometry.{Maths, Vec3}
use robonode.Core.Result.{Result, ok, err, Post, returns, raises, Post-guard, Post-ok}
use robonode.Motion.Kinematics.{Kinematics, Goal, joint, cartesian_position, cartesian_pose}
use robonode.Motion.Waypoints.{column}
use robonode.Motion.Cartesian.Ik.{IkOptions}
use robonode.Motion.Cartesian.MoveL.{MoveError}
use robonode.Motion.Planner.{Refusal, Blocked, direct_line_blocked, for_position}
use robonode.Motion.Planner.Avoiding.{
  steps_in, clear_from, clear, attempts, attempted, plan_over, try_over, direct_or, avoid,
  avoiding_plan,
}

module _ {ℓ} {W : Type ℓ} ⦃d : Double W⦄ (kin : Kinematics W) where
  clear_from-column :
      (wps : List (List W)) (left s j : ℕ)
      → clear_from kin wps left s ≡ true
      → j < left
      → kin.in_collision (column (s + j) wps) ≡ false
  unfolding clear_from
  clear_from-column wps zero s j h k = absurd (omega (arith, k))
  clear_from-column wps (suc left) s zero h k = rw s_0 (first (kin.in_collision (column s wps)) h)
    where
      s_0 : s + 0 ≡ s
      s_0 = omega arith

      first :
          (b : Bool)
          → elim b [ true ↦ false | false ↦ clear_from kin wps left (s + 1) ] ≡ true
          → b ≡ false
      first true h = absurd (ground arith)
      first false h = refl
  clear_from-column wps (suc left) s (suc j) h k =
      subst (λ i. kin.in_collision (column i wps) ≡ false) shifted
        (clear_from-column wps left (s + 1) j (rest (kin.in_collision (column s wps)) h)
          (omega arith))
    where
      shifted : s + 1 + j ≡ s + suc j
      shifted = omega arith

      rest :
          (b : Bool)
          → elim b [ true ↦ false | false ↦ clear_from kin wps left (s + 1) ] ≡ true
          → clear_from kin wps left (s + 1) ≡ true
      rest true h = absurd (ground arith)
      rest false h = h

  abbrev IsClear : List (List W) → Type 0
  IsClear wps = clear kin wps ≡ true

  clear-column :
      (wps : List (List W)) (s : ℕ)
      → IsClear wps
      → s < steps_in wps
      → kin.in_collision (column s wps) ≡ false
  unfolding clear
  clear-column wps s h k =
      subst (λ i. kin.in_collision (column i wps) ≡ false) (omega arith)
        (clear_from-column wps (steps_in wps) 0 s h k)

  abbrev AnyRefusal : Refusal → Type 0
  AnyRefusal e = Unit

  abbrev AnyBlocked : Blocked → Type 0
  AnyBlocked e = Unit

  module _ ⦃m : Maths W⦄ (n_steps : ℕ) (ik : IkOptions W) where
    attempted-Clear :
        (lift : W) (r : Result MoveError (List (List W)))
        → Post IsClear AnyBlocked (attempted kin n_steps ik lift r)
    unfolding attempted
    attempted-Clear lift (err why) = raises tt
    attempted-Clear lift (ok path) = elim (Bool-cases (clear kin path)) [
      | inl free ↦ rw free (returns free)
      | inr hit ↦ rw hit (raises tt)
    ]

    retried :
        {r : Result Blocked (List (List W))} {again : Blocked → Result Refusal (List (List W))}
        → Post IsClear AnyBlocked r
        → ((why : Blocked) → Post IsClear AnyRefusal (again why))
        → Post IsClear AnyRefusal (elim r [ ok path ↦ ok path | err why ↦ again why ])
    retried (returns h) k = returns h
    retried (raises h) k = k _

    try_over-Clear :
        (clearance_m : W) (start_q : List W) (goal from : Vec3 W) (left attempt : ℕ) (why : Blocked)
        → Post IsClear AnyRefusal
            (try_over kin n_steps ik clearance_m start_q goal from left attempt why)
    unfolding try_over
    try_over-Clear clearance_m start_q goal from zero attempt why = raises tt
    try_over-Clear clearance_m start_q goal from (suc left) attempt why =
        retried (attempted-Clear _ (plan_over kin n_steps ik start_q goal from _))
          (try_over-Clear clearance_m start_q goal from left (attempt + 1))

    direct_or-Clear :
        (r : Result MoveError (List (List W))) {around : Result Refusal (List (List W))}
        → Post IsClear AnyRefusal around
        → Post IsClear AnyRefusal (direct_or kin n_steps ik r around)
    unfolding direct_or
    direct_or-Clear (err why) h = h
    direct_or-Clear (ok wps) h = elim (Bool-cases (clear kin wps)) [
      | inl free ↦ rw free (returns free)
      | inr hit ↦ rw hit h
    ]

    avoid-Clear :
        (clearance_m : W) (start_q : List W) (goal : Vec3 W)
        → Post IsClear AnyRefusal (avoid kin n_steps ik clearance_m start_q goal)
    unfolding avoid
    avoid-Clear clearance_m start_q goal = Post-guard kin.can_check_collision _ tt (λ can.
        direct_or-Clear _ (
          try_over-Clear clearance_m start_q goal (kin.tcp_position start_q) attempts 1
            direct_line_blocked))

  plan-Clear :
      ⦃m : Maths W⦄ (n_steps : ℕ) (clearance_m : W) (ik : IkOptions W) (start_q : List W)
      (goal : Goal W)
      → Post IsClear AnyRefusal (avoiding_plan kin n_steps clearance_m ik start_q goal)
  unfolding avoiding_plan for_position
  plan-Clear n_steps clearance_m ik start_q (joint q) = raises tt
  plan-Clear n_steps clearance_m ik start_q (cartesian_position target velocity) =
      avoid-Clear _ ik clearance_m start_q target
  plan-Clear n_steps clearance_m ik start_q (cartesian_pose pose) = raises tt

  -- No configuration of a plan that the avoiding planner emits, whether the direct line or the way
  -- over the top, is one that the kinematics say is in collision.
  pub avoiding_plan-clear :
      ⦃m : Maths W⦄ (n_steps : ℕ) (clearance_m : W) (ik : IkOptions W) (start_q : List W)
      (goal : Goal W) (wps : List (List W)) (s : ℕ)
      → avoiding_plan kin n_steps clearance_m ik start_q goal ≡ ok wps
      → s < steps_in wps
      → kin.in_collision (column s wps) ≡ false
  avoiding_plan-clear n_steps clearance_m ik start_q goal wps s done k =
      clear-column wps s
        (Post-ok
          (subst (Post IsClear AnyRefusal) done (plan-Clear n_steps clearance_m ik start_q goal)))
        k
