-- ===== src/Gateway/Planner/Workspace.antt =====
-- Where a plan of gateway/sandboxed_planner.hpp goes.
use robonode.Prelude.{◌≡◌, refl, ◌∙◌, ap, Bool, true, ◌&&◌, List, [], ◌∷◌, arith}
use mathlib.Core.Path.{subst}
use robonode.Core.Double.{Double}
use robonode.Core.Result.{
  Result, ok, err, Post, returns, raises, Post-guard, Post-bind, Post-weaken, Post-ok,
}
use robonode.Core.Geometry.{Vec3}
use robonode.Sandbox.Program.{VmError}
use robonode.Sandbox.Eval.{run}
use robonode.Motion.Waypoints.{joined, last_column}
use robonode.Motion.Kinematics.{cartesian_position}
use robonode.Gateway.Planner.{
  SandboxedPlanner, PlannerError, MoveL, from_program, from_move, two_points, all_finite, in_bounds,
  plan_points, plan_outputs, plan,
}

both : (a b : Bool) → (a && b) ≡ true → (a ≡ true) × (b ≡ true)
both a b h = (ground arith, ground arith)

abbrev Any : {E : Type 0} → E → Type 0
Any e = Unit

Post-from_move {ℓ} :
    {E : Type 0} {A : Type ℓ} (r : Result E A) → Post (λ a. r ≡ ok a) Any (from_move r)
unfolding from_move
Post-from_move (ok a) = returns refl
Post-from_move (err why) = raises tt

Post-from_program {ℓ} :
    {E : Type 0} {A : Type ℓ} (r : Result VmError A)
    → Post (λ a. r ≡ ok a) (Any {E = PlannerError E}) (from_program r)
unfolding from_program
Post-from_program (ok a) = returns refl
Post-from_program (err why) = raises tt

module _ {ℓ} {W : Type ℓ} where
  abbrev pub values : Vec3 W → Vec3 W → List W
  values via end = via.x ∷ via.y ∷ via.z ∷ end.x ∷ end.y ∷ end.z ∷ []

  Post-two_points :
      {E : Type 0} (out : List W)
      → Post
          (λ (points : Vec3 W × Vec3 W). out ≡ values points.0 points.1)
          (Any {E = PlannerError E})
          (two_points out)
  unfolding two_points
  Post-two_points [] = raises tt
  Post-two_points (a ∷ []) = raises tt
  Post-two_points (a ∷ b ∷ []) = raises tt
  Post-two_points (a ∷ b ∷ c ∷ []) = raises tt
  Post-two_points (a ∷ b ∷ c ∷ d ∷ []) = raises tt
  Post-two_points (a ∷ b ∷ c ∷ d ∷ e ∷ []) = raises tt
  Post-two_points (a ∷ b ∷ c ∷ d ∷ e ∷ f ∷ []) = returns refl
  Post-two_points (a ∷ b ∷ c ∷ d ∷ e ∷ f ∷ g ∷ out) = raises tt

module _ {ℓ} {W : Type ℓ} {E : Type 0} ⦃d : Double W⦄ (move_l : MoveL E W) (p : SandboxedPlanner W)
    (start_q : List W) where
  -- The program gave two finite points of the workspace, and the plan is a straight move to the one
  -- and from its end to the other.
  abbrev pub StaysInside : Vec3 W → List (List W) → Type ℓ
  StaysInside target wps =
      (via end : Vec3 W) × (to_via to_end : List (List W)) × (run p.program
          (target.x ∷ target.y ∷ target.z ∷ []) p.limits
        ≡ ok (values via end))
      × (all_finite (values via end) ≡ true)
      × (in_bounds p via ≡ true)
      × (in_bounds p end ≡ true)
      × (move_l start_q via ≡ ok to_via)
      × (move_l (last_column to_via) end ≡ ok to_end)
      × (wps ≡ joined to_via to_end)

  points-Legs :
      (via end : Vec3 W)
      → Post
          (λ wps.
            (to_via to_end : List (List W)) × (in_bounds p via ≡ true)
            × (in_bounds p end ≡ true)
            × (move_l start_q via ≡ ok to_via)
            × (move_l (last_column to_via) end ≡ ok to_end)
            × (wps ≡ joined to_via to_end))
          Any
          (plan_points move_l p start_q via end)
  unfolding plan_points
  points-Legs via end = Post-guard (in_bounds p via && in_bounds p end) _ tt (λ inside.
      Post-bind (Post-from_move (move_l start_q via)) (λ to_via v.
        Post-bind (Post-from_move (move_l (last_column to_via) end)) (λ to_end e.
          let (i, j) = both (in_bounds p via) (in_bounds p end) inside in
          returns (to_via, to_end, i, j, v, e, refl))))

  outputs-StaysInside :
      (target : Vec3 W) (out : List W)
      → run p.program (target.x ∷ target.y ∷ target.z ∷ []) p.limits ≡ ok out
      → Post (StaysInside target) Any (plan_outputs move_l p start_q out)
  unfolding plan_outputs
  outputs-StaysInside target out ran = Post-bind (Post-two_points out) (λ points six.
      Post-guard (all_finite out) _ tt (λ finite.
        Post-weaken (points-Legs points.0 points.1) (λ wps (to_via, to_end, i, j, v, e, w). (
          points.0,
          points.1,
          to_via,
          to_end,
          ran ∙ ap ok six,
          subst (λ l. all_finite l ≡ true) six finite,
          i,
          j,
          v,
          e,
          w,
        ))))

  plan-Post :
      (target velocity : Vec3 W)
      → Post (StaysInside target) Any (plan move_l p start_q (cartesian_position target velocity))
  unfolding plan
  plan-Post target velocity =
      Post-bind (Post-from_program (run p.program (target.x ∷ target.y ∷ target.z ∷ []) p.limits))
        (λ out ran. outputs-StaysInside target out ran)

  pub plan-StaysInside :
      (target velocity : Vec3 W) (wps : List (List W))
      → plan move_l p start_q (cartesian_position target velocity) ≡ ok wps
      → StaysInside target wps
  plan-StaysInside target velocity wps done =
      Post-ok (subst (Post (StaysInside target) Any) done (plan-Post target velocity))
