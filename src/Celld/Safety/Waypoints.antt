-- ===== src/Celld/Safety/Waypoints.antt =====
-- The run of a cell through waypoints: when it runs at all, and within what limits.
use robonode.Prelude.{ℕ, ◌≡◌, refl, Bool, true, ◌||◌, ◌==◌, List, [], ◌∷◌, length, All, arith}
use mathlib.Core.Path.{subst}
use robonode.Core.Double.{Double, IsOrdered}
use robonode.Core.Result.{
  Result, ok, err, Post, returns, raises, Post-guard, Post-bind, Post-weaken, Post-ok,
}
use robonode.Motion.Blend.{make, SyncBlendPlan, BlendError}
use robonode.Celld.Driver.{
  Lifecycle, unconfigured, configuring, inactive, active, degraded, faulty, Drivers, Controllers,
}
use robonode.Celld.Cell.{Node, Cell, not_active, gather, check_active, is_active}
use robonode.Celld.Run.{Ran, limits_of, period_of, plan_source, run_planned, run_waypoints}
use robonode.Celld.Safety.{InLimits, Moves, Stands, Still, AllActive, run_axes-InLimits}

module _ {ℓ κ μ} {W : Type ℓ} {S : Type κ} {A : Type μ} ⦃d : Double W⦄ (laws : IsOrdered W)
    (io : Drivers W S A) (ctl : Controllers W S) (waypoints : List (List W))
    (rate settle stop_time : W) (requested : ℕ → Bool) (c : Cell W S A) where
  run_planned-InLimits :
      (p : Result BlendError (SyncBlendPlan W))
      → Moves (period_of io rate) (limits_of io c.nodes)
      → Still io ctl
      → Stands io c.world c.nodes
      → Post
          (λ ran. All (InLimits (limits_of io c.nodes)) (Ran.rows ran))
          (λ _. Unit)
          (run_planned io ctl rate settle stop_time requested c p)
  unfolding run_planned
  run_planned-InLimits (err why) t u h = raises tt
  run_planned-InLimits (ok plan) t u h =
      run_axes-InLimits laws io ctl (plan_source io plan) c plan.duration rate settle stop_time
        requested t u h

  is_active-eq : (l : Lifecycle) → is_active l ≡ true → l ≡ active
  unfolding is_active
  is_active-eq unconfigured h = ground arith
  is_active-eq configuring h = ground arith
  is_active-eq inactive h = ground arith
  is_active-eq active h = refl
  is_active-eq degraded h = ground arith
  is_active-eq faulty h = ground arith

  check_active-AllActive :
      (ns : List (Node W A)) (s : S)
      → Post (λ _. AllActive io s ns) (λ _. Unit) (check_active io ns s)
  unfolding check_active
  check_active-AllActive [] s = returns tt
  check_active-AllActive (n ∷ ns) s =
      Post-guard (is_active (Drivers.lifecycle io n.adapter s)) (not_active n.id) tt
        (λ b. Post-weaken (check_active-AllActive ns s) (λ _ a. (is_active-eq _ b, a)))

  gather-AllActive : Post (λ _. AllActive io c.world c.nodes) (λ _. Unit) (gather io ctl.count c)
  unfolding gather
  gather-AllActive =
      Post-guard (ctl.count == 0 || ctl.count == length c.nodes) _ tt
        (λ _. check_active-AllActive c.nodes c.world)

  -- A run through waypoints that is not refused starts with every node active, and every governed
  -- position in its telemetry lies within the limits of its node, whatever the plan, the
  -- controllers, the devices and the stop request do: if each node is governed by the limits of its
  -- descriptor and stands within them, the travels are not empty, the largest steps are not
  -- negative, and the reset of a controller moves no axis.
  pub run_waypoints-InLimits :
      (ran : Ran W S A)
      → Moves (period_of io rate) (limits_of io c.nodes)
      → Still io ctl
      → Stands io c.world c.nodes
      → run_waypoints io ctl waypoints rate settle stop_time requested c ≡ ok ran
      → AllActive io c.world c.nodes × All (InLimits (limits_of io c.nodes)) ran.rows
  unfolding run_waypoints
  run_waypoints-InLimits ran t u h e = Post-ok (subst (Post Good (λ _. Unit)) e post)
    where
      Good : Ran W S A → Type 0
      Good r = AllActive io c.world c.nodes × All (InLimits (limits_of io c.nodes)) r.rows

      post :
          Post Good (λ _. Unit) (run_waypoints io ctl waypoints rate settle stop_time requested c)
      post = Post-guard (length waypoints == length c.nodes) _ tt (λ _.
          Post-bind gather-AllActive (λ _ a.
            Post-weaken (run_planned-InLimits (make waypoints (limits_of io c.nodes)) t u h)
              (λ r k. (a, k))))
