-- ===== src/Celld/Run.antt =====
-- The runs of celld/cell.hpp on the executive of motion/sync_executive.hpp: a plan through waypoints,
-- or a source for each axis.
use robonode.Prelude.{
  ℕ, Bool, if◌then◌else◌, ◌==◌, Option, none, some, List, length, map, get_elem?, zip_with,
}
use robonode.Core.Double.{Double, nought, least}
use robonode.Core.Result.{Result, ok, err, ◌>>◌, guard}
use robonode.Motion.Limits.{AxisLimits, State, AxisState, normal}
use robonode.Motion.Blend.{BlendError, SyncBlendPlan, make}
use robonode.Motion.Blend.Sample.{sample_pieces}
use robonode.Motion.Executive.{Plant, Channel, Exec, TelemetryRow, CycleStats}
use robonode.Motion.Executive
use robonode.Celld.Driver.{Drivers, Controllers}
use robonode.Celld.Cell.{
  Node, Cell, CellError, waypoint_lists, setpoint_sources, not_planned, adapters_governors_mismatch,
  gather,
}

-- A source of setpoints for each axis.
abbrev pub Sources {ℓ κ} : Type ℓ → Type κ → Type (ℓ ⊔ κ)
Sources W S = ℕ → W → W → S → State W × S

-- What a run leaves and reports: its rows, newest first, and its counts.
pub record Ran {ℓ κ μ} (W : Type ℓ) (S : Type κ) (A : Type μ) : Type (ℓ ⊔ κ ⊔ μ) where
  pub cell : Cell W S A
  pub rows : List (List (TelemetryRow W))
  pub stats : CycleStats

module _ {ℓ κ μ} {W : Type ℓ} {S : Type κ} {A : Type μ} ⦃d : Double W⦄ (io : Drivers W S A) where
  -- An index out of range does not occur: the executive counts the same nodes.
  unfoldable pub read_at : Option A → S → AxisState W
  read_at none s = record { position = nought; velocity = nought; safety = normal }
  read_at (some a) s = Drivers.read io a s

  unfoldable pub write_at : Option A → W → S → S
  write_at none p s = s
  write_at (some a) p s = Drivers.write_setpoint io a p s

  unfoldable pub command_at : Controllers W S → List A → ℕ → State W → W → S → W × S
  unfolding read_at
  command_at ctl adapters i target dt s =
      if ctl.count == 0
      then (target.position, s)
      else Controllers.command ctl i target (read_at (get_elem? adapters i) s) dt s

  unfoldable pub reset_at : Controllers W S → ℕ → W → S → S
  reset_at ctl i position s = if ctl.count == 0 then s else Controllers.reset ctl i position s

  -- The calls that the executive makes on the members of the nodes.
  unfoldable pub plant_of : Controllers W S → Sources W S → List A → Plant W S
  unfolding read_at write_at command_at reset_at
  plant_of ctl sources adapters = record {
    read = λ i s. read_at (get_elem? adapters i) s;
    next = sources;
    command = command_at ctl adapters;
    reset_controller = reset_at ctl;
    write_setpoint = λ i p s. write_at (get_elem? adapters i) p s;
    step_all = λ dt s. Drivers.step_all io adapters dt s;
  }

  abbrev pub adapters_of : List (Node W A) → List A
  adapters_of ns = map (λ n. n.adapter) ns

  unfoldable pub channel_of : Node W A → Channel W
  channel_of n = record {
    governor = n.governor;
    tgt = record { position = nought; velocity = nought; acceleration = nought };
    cmd = nought;
  }

  -- The governors are members of the nodes: a run leaves them changed.
  unfoldable pub with_channels : List (Node W A) → List (Channel W) → List (Node W A)
  with_channels ns cs =
      zip_with (λ (n : Node W A) (ch : Channel W). record n { governor = ch.governor }) ns cs

  -- `period_ns_`, and `dt_s`
  unfoldable pub period_of : W → W
  period_of rate = d.mul (d.of_nat (d.trunc (d.div (d.decimal 1000000000 0) rate))) (d.decimal 1 9)

  -- The constructor of the executive, which refuses no axes at all, and its `run`.
  unfoldable pub run_axes :
      Controllers W S
      → Sources W S
      → W
      → W
      → W
      → W
      → (ℕ → Bool)
      → Cell W S A
      → Result CellError (Ran W S A)
  unfolding Executive.run plant_of channel_of with_channels period_of
  run_axes ctl sources duration rate stop_time settle requested c =
      let io' = plant_of ctl sources (adapters_of c.nodes) in
      let e =
        Executive.run io' duration (period_of rate) stop_time settle requested
          (map channel_of c.nodes) c.world in
      if length c.nodes == 0
      then err adapters_governors_mismatch
      else ok (record {
        cell = record { world = e.plant; nodes = with_channels c.nodes e.channels };
        rows = e.rows;
        stats = e.stats;
      })

  -- `PlanAxisSource::next`
  unfoldable pub plan_source : SyncBlendPlan W → Sources W S
  unfolding sample_pieces least
  plan_source plan i t dt s = elim (get_elem? plan.pieces i) [
    | none ↦ (record { position = nought; velocity = nought; acceleration = nought }, s)
    | some pieces ↦ (sample_pieces pieces (least t plan.duration), s)
  ]

  unfoldable pub run_planned :
      Controllers W S
      → W
      → W
      → W
      → (ℕ → Bool)
      → Cell W S A
      → Result BlendError (SyncBlendPlan W)
      → Result CellError (Ran W S A)
  unfolding run_axes plan_source
  run_planned ctl rate settle stop_time requested c (err why) = err (not_planned why)
  run_planned ctl rate settle stop_time requested c (ok plan) =
      run_axes ctl (plan_source plan) plan.duration rate stop_time settle requested c

  abbrev pub limits_of : List (Node W A) → List (AxisLimits W)
  limits_of ns = map (λ n. n.descriptor.limits) ns

  unfoldable pub run_waypoints :
      Controllers W S
      → List (List W)
      → W
      → W
      → W
      → (ℕ → Bool)
      → Cell W S A
      → Result CellError (Ran W S A)
  unfolding run_planned gather make
  run_waypoints ctl waypoints rate settle stop_time requested c = do
    guard (length waypoints == length c.nodes) (waypoint_lists (length waypoints) (length c.nodes))
    gather io ctl.count c
    run_planned ctl rate settle stop_time requested c (make waypoints (limits_of c.nodes))

  -- The sources are counted; the executive settles for no time.
  unfoldable pub run_sources :
      Controllers W S
      → ℕ
      → Sources W S
      → W
      → W
      → W
      → (ℕ → Bool)
      → Cell W S A
      → Result CellError (Ran W S A)
  unfolding run_axes gather
  run_sources ctl count sources rate run_for stop_time requested c = do
    guard (count == length c.nodes) (setpoint_sources count (length c.nodes))
    gather io ctl.count c
    run_axes ctl sources run_for rate stop_time nought requested c
