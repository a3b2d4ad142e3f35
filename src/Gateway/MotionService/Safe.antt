-- ===== src/Gateway/MotionService/Safe.antt =====
-- How `execute` of gateway/motion_service.hpp ends.
use robonode.Prelude.{
  ℕ, ◌≡◌, refl, Bool, true, false, not, ◌&&◌, if◌then◌else◌, some, List, All, arith,
}
use robonode.Core.Double.{Double, IsOrdered}
use robonode.Core.Result.{Result, ok, err, Status, success}
use robonode.Motion.Validator.{PlanError, check}
use robonode.Motion.Validator.Accepts.{IsTrajectory, check-eq-ok}
use robonode.Celld.Driver.{Drivers, Controllers}
use robonode.Celld.Cell.{Cell, CellError}
use robonode.Celld.Run.{Ran, run_waypoints, limits_of, period_of}
use robonode.Celld.Safety.{InLimits, Moves, Stands, Still, AllActive}
use robonode.Celld.Safety.Waypoints.{run_waypoints-InLimits}
use robonode.Gateway.MotionService.{ServiceError, stopped_before_goal, ServiceSettings}
use robonode.Gateway.MotionService.Execute.{Axes, Executed, report_of, ended, checked, execute}

and_true : {a b : Bool} → (a && not b) ≡ true → (a ≡ true) × (b ≡ false)
and_true {a} {b} h = (ground arith, ground arith)

module _ {ℓ κ μ} {W : Type ℓ} {S : Type κ} {A : Type μ} ⦃d : Double W⦄ (laws : IsOrdered W)
    (io : Drivers W S A) (cfg : ServiceSettings W) (ctl : Controllers W S) (requested : ℕ → Bool)
    (asked : Bool) (axes : Axes W) (wp : List (List W)) (settle : W) (c : Cell W S A) where
  -- The run did not report that it stopped early, unless it was asked to stop.
  abbrev pub Completed : Ran W S A → Type 0
  Completed ran = (ran.stats.stopped_early && not asked) ≡ false

  -- What a success means, and an error: that the run stopped unasked, or the cell is as it was.
  abbrev pub ExecuteEnds : Executed W S A × Status ServiceError → Type (ℓ ⊔ κ ⊔ μ)
  ExecuteEnds (ex, ok _) =
      IsTrajectory cfg.motion wp axes.limits
      × AllActive io c.world c.nodes
      × (ran : Ran W S A) × (run_waypoints io ctl wp cfg.rate_hz settle cfg.stop_time_s requested c
          ≡ ok ran)
      × (ex.cell ≡ ran.cell)
      × All (InLimits (limits_of io c.nodes)) ran.rows
      × Completed ran
  ExecuteEnds (ex, err stopped_before_goal) =
      (ran : Ran W S A) × (run_waypoints io ctl wp cfg.rate_hz settle cfg.stop_time_s requested c
        ≡ ok ran)
      × (ex.cell ≡ ran.cell)
      × (ran.stats.stopped_early ≡ true)
      × (asked ≡ false)
  ExecuteEnds (ex, err _) = ex.cell ≡ c

  ran-ExecuteEnds :
      (ran : Ran W S A) (b : Bool)
      → IsTrajectory cfg.motion wp axes.limits
      → AllActive io c.world c.nodes × All (InLimits (limits_of io c.nodes)) ran.rows
      → run_waypoints io ctl wp cfg.rate_hz settle cfg.stop_time_s requested c ≡ ok ran
      → (ran.stats.stopped_early && not asked) ≡ b
      → ExecuteEnds (
        record { cell = ran.cell; report = some (report_of io cfg ctl requested asked axes ran) },
        (if b then err stopped_before_goal else success),
      )
  ran-ExecuteEnds ran true t (a, rows) done h =
      let (stopped, unasked) = and_true h in (ran, done, refl, stopped, unasked)
  ran-ExecuteEnds ran false t (a, rows) done h = (t, a, ran, done, refl, rows, h)

  run-ExecuteEnds :
      (x : Result CellError (Ran W S A))
      → IsTrajectory cfg.motion wp axes.limits
      → Moves (period_of io cfg.rate_hz) (limits_of io c.nodes)
      → Still io ctl
      → Stands io c.world c.nodes
      → run_waypoints io ctl wp cfg.rate_hz settle cfg.stop_time_s requested c ≡ x
      → ExecuteEnds (ended io cfg ctl requested asked axes c x)
  unfolding ended
  run-ExecuteEnds (err why) t m u h e = refl
  run-ExecuteEnds (ok ran) t m u h e =
      ran-ExecuteEnds ran _ t
        (run_waypoints-InLimits laws io ctl wp cfg.rate_hz settle cfg.stop_time_s requested c ran m
          u h e)
        e refl

  check-ExecuteEnds :
      (st : Status PlanError)
      → Moves (period_of io cfg.rate_hz) (limits_of io c.nodes)
      → Still io ctl
      → Stands io c.world c.nodes
      → check cfg.motion wp axes.limits axes.ids ≡ st
      → ExecuteEnds (checked io cfg ctl requested asked axes wp settle c st)
  unfolding checked
  check-ExecuteEnds (err why) m u h e = refl
  check-ExecuteEnds (ok tt) m u h e =
      run-ExecuteEnds _ ((check-eq-ok cfg.motion wp axes.limits axes.ids).0 e).0 m u h refl

  -- A request that succeeds was for a trajectory that the validator admits, on a cell whose nodes
  -- are all active, and was run with every governed position within the limits of its node, and the
  -- run did not report that it stopped early, unless it was asked to stop. One that fails was run and
  -- reported an early stop that was not asked for, or leaves the cell as it was. This holds if each node is governed by the limits of its descriptor and
  -- stands within them, the travels are not empty, the largest steps are not negative, and the
  -- reset of a controller moves no axis.
  pub execute-ExecuteEnds :
      Moves (period_of io cfg.rate_hz) (limits_of io c.nodes)
      → Still io ctl
      → Stands io c.world c.nodes
      → ExecuteEnds (execute io cfg ctl requested asked axes wp settle c)
  unfolding execute
  execute-ExecuteEnds m u h = check-ExecuteEnds _ m u h refl
