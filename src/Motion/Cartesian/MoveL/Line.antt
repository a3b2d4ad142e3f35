-- ===== src/Motion/Cartesian/MoveL/Line.antt =====
-- The waypoints of `plan_move_l` of motion/cartesian.hpp: the straight line.
use robonode.Prelude.{
  ℕ, zero, suc, ◌+◌, ◌<◌, ◌≤◌, ◌≡◌, refl, ◌==◌, ==_iff, ltb, List, length, arith, All,
}
use mathlib.Core.Path.{subst}
use robonode.Core.Double.{Double}
use robonode.Core.Geometry.{Maths, Vec3}
use robonode.Core.Result.{Result, ok, Post, returns, raises, Post-guard, Post-bind, Post-ok}
use robonode.Motion.Kinematics.{Kinematics}
use robonode.Motion.Waypoints.{column}
use robonode.Motion.Waypoints.Table.{IsTable, push-IsTable, first-IsTable}
use robonode.Motion.Cartesian.Ik.{IkOptions, IkError}
use robonode.Motion.Cartesian.Ik.Within.{IsTravel, InTravel}
use robonode.Motion.Cartesian.Reach.{ik_position}
use robonode.Motion.Cartesian.Reach.Solves.{Reaches, ik_position-Reaches}
use robonode.Motion.Cartesian.MoveL.{MoveError, at_step, on_line, walk, plan_move_l}

module _ {ℓ} {W : Type ℓ} ⦃d : Double W⦄ ⦃m : Maths W⦄ (kin : Kinematics W) (opt : IkOptions W)
    (bounded : All IsTravel opt.bounds) where
  -- A move of `n` steps from `q_start`, each at its point of the line.
  abbrev pub IsMove : (ℕ → Vec3 W) → List W → ℕ → List (List W) → Type ℓ
  IsMove line q_start n wps =
      IsTable (λ j q. Reaches kin opt bounded (line j) q) kin.dof q_start n wps

  abbrev pub AnyMove : MoveError → Type 0
  AnyMove e = Unit

  step-Reaches :
      (s : ℕ) (q : List W) (p : Vec3 W)
      → InTravel opt.bounds 0 q
      → Post (Reaches kin opt bounded p) AnyMove (at_step s (ik_position kin q p opt))
  unfolding at_step
  step-Reaches s q p inside = go (ik_position-Reaches kin opt bounded q p inside)
    where
      go :
          {r : Result IkError (List W)}
          → Post (Reaches kin opt bounded p) (λ e. Unit) r
          → Post (Reaches kin opt bounded p) AnyMove (at_step s r)
      go (returns h) = returns h
      go (raises h) = raises tt

  walk-IsMove :
      (line : ℕ → Vec3 W) (q_start : List W) (left n s stop : ℕ) (q : List W) (wps : List (List W))
      → s ≡ suc n
      → n + left ≡ stop
      → InTravel opt.bounds 0 q
      → IsMove line q_start n wps
      → Post (IsMove line q_start stop) AnyMove (walk kin opt line left s q wps)
  unfolding walk
  walk-IsMove line q_start zero n s stop q wps e end inside i =
      returns (subst (λ k. IsMove line q_start k wps) (omega (arith, end)) i)
  walk-IsMove line q_start (suc left) n s stop q wps e end inside i =
      Post-bind (step-Reaches s q (line s) inside) (λ q' (near, posture).
        walk-IsMove line q_start left (suc n) (s + 1) stop q' _ (omega (arith, e))
          (omega (arith, end)) posture.1
          (push-IsTable i posture.0
            (subst (λ k. Reaches kin opt bounded (line k) q') e (near, posture))))

  pub plan_move_l-IsMove :
      (q_start : List W) (target : Vec3 W) (n_steps : ℕ)
      → InTravel opt.bounds 0 q_start
      → Post
          (IsMove (on_line (kin.tcp_position q_start) target n_steps) q_start n_steps)
          AnyMove
          (plan_move_l kin q_start target n_steps opt)
  unfolding plan_move_l
  plan_move_l-IsMove q_start target n_steps inside =
      Post-guard (length q_start == kin.dof) _ tt (λ size.
        Post-guard (ltb 0 n_steps) _ tt (λ some_steps.
          walk-IsMove _ q_start n_steps 0 1 n_steps q_start _ refl (omega arith) inside (
            first-IsTable
              (λ j q.
                Reaches kin opt bounded (on_line (kin.tcp_position q_start) target n_steps j) q)
              q_start ((==_iff _ _).0 size))))

  made :
      (q_start : List W) (target : Vec3 W) (n_steps : ℕ) (wps : List (List W))
      → InTravel opt.bounds 0 q_start
      → plan_move_l kin q_start target n_steps opt ≡ ok wps
      → IsMove (on_line (kin.tcp_position q_start) target n_steps) q_start n_steps wps
  made q_start target n_steps wps inside done = Post-ok (
      subst
        (Post (IsMove (on_line (kin.tcp_position q_start) target n_steps) q_start n_steps) AnyMove)
        done (plan_move_l-IsMove q_start target n_steps inside))

  -- Where the bounds of the joints are travels: each configuration of a straight move after the
  -- first, from a start inside the travel of the joints, has the tool closer to its point of the line
  -- than the tolerance, and every joint inside its travel.
  pub plan_move_l-Reaches :
      (q_start : List W) (target : Vec3 W) (n_steps : ℕ) (wps : List (List W)) (s : ℕ)
      → InTravel opt.bounds 0 q_start
      → plan_move_l kin q_start target n_steps opt ≡ ok wps
      → 0 < s
      → s ≤ n_steps
      → Reaches kin opt bounded (on_line (kin.tcp_position q_start) target n_steps s) (column s wps)
  plan_move_l-Reaches q_start target n_steps wps s inside done pos below =
      (made q_start target n_steps wps inside done).points s pos below
