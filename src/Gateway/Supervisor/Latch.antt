-- ===== src/Gateway/Supervisor/Latch.antt =====
-- The latch of gateway/cell_supervisor.hpp: after an e-stop nothing starts until `resume`.
use robonode.Prelude.{◌≡◌, refl, ◌≢◌, true, false, List, [], ◌∷◌, arith, if◌then◌else◌, All}
use robonode.Core.Result.{err, success}
use robonode.Gateway.Supervisor.{
  CellState, moving, held, faulted, CellError, cell_is_latched, CellSupervisor, init, begin, estop,
  working, Call, begins, ends, faults, stops, estops, resumes, apply, apply_all, Command, execute,
}

-- A latched cell is held.
pub record Inv (s : CellSupervisor) : Type 0 where
  pub latched_held : s.latched ≡ true → s.state ≡ held

apply-Inv : (c : Call) (s : CellSupervisor) → Inv s → Inv (apply c s)
unfolding apply
apply-Inv (begins next) s v = ground arith
apply-Inv (ends next) s v = ground arith
apply-Inv (faults why) s v = ground arith
apply-Inv stops s v = record { latched_held = v.latched_held }
apply-Inv estops s v = ground arith
apply-Inv resumes s v = ground arith

apply_all-Inv : (cs : List Call) (s : CellSupervisor) → Inv s → Inv (apply_all cs s)
unfolding apply_all
apply_all-Inv [] s v = v
apply_all-Inv (c ∷ cs) s v = apply_all-Inv cs (apply c s) (apply-Inv c s v)

init-Inv : Inv init
unfolding init
init-Inv = record { latched_held = λ h. ground arith }

refuses :
    (s : CellSupervisor)
    → s.latched ≡ true
    → s.state ≡ held
    → (s.state ≡ held)
      × (working s ≡ false)
      × ((next : CellState) → begin next s ≡ (s, err cell_is_latched))
unfolding working begin
refuses s h k = (k, ground arith, λ next. ground arith)

-- After any calls on a new supervisor, by whichever threads: if it is latched then its state is
-- held, `working` is false, and `begin` of any state is refused and changes nothing.
apply_all-latched :
    (cs : List Call)
    → (apply_all cs init).latched ≡ true
    → let s = apply_all cs init in
      (s.state ≡ held)
      × (working s ≡ false)
      × ((next : CellState) → begin next s ≡ (s, err cell_is_latched))
apply_all-latched cs h =
    refuses (apply_all cs init) h ((apply_all-Inv cs init init-Inv).latched_held h)

apply-latched :
    (c : Call) (s : CellSupervisor)
    → c ≢ resumes
    → s.latched ≡ true
    → s.state ≡ held
    → ((apply c s).latched ≡ true) × ((apply c s).state ≡ held)
unfolding apply
apply-latched (begins next) s n h k = ground arith
apply-latched (ends next) s n h k = ground arith
apply-latched (faults why) s n h k = ground arith
apply-latched stops s n h k = ground arith
apply-latched estops s n h k = ground arith
apply-latched resumes s n h k = absurd (n refl)

apply_all_latched :
    (cs : List Call) (s : CellSupervisor)
    → All (λ c. c ≢ resumes) cs
    → s.latched ≡ true
    → s.state ≡ held
    → ((apply_all cs s).latched ≡ true) × ((apply_all cs s).state ≡ held)
unfolding apply_all
apply_all_latched [] s a h k = (h, k)
apply_all_latched (c ∷ cs) s (n, a) h k =
    let (h', k') = apply-latched c s n h k in apply_all_latched cs (apply c s) a h' k'

-- Only `resume` releases the latch: whatever else is called after an e-stop, the cell stays latched
-- and held.
pub estop-apply_all :
    (cs : List Call) (s : CellSupervisor)
    → All (λ c. c ≢ resumes) cs
    → let s' = apply_all cs (estop s).0 in (s'.latched ≡ true) × (s'.state ≡ held)
unfolding estop
estop-apply_all cs s a = apply_all_latched cs _ a refl refl

-- The worker runs no command that starts motion on a latched cell: whatever the command would do,
-- only the refusal is noted.
execute-latched :
    (c : Command) (s : CellSupervisor)
    → s.latched ≡ true
    → c.starts_motion ≡ true
    → execute c s ≡ record s { last_error = cell_is_latched ∷ [] }
unfolding execute
execute-latched c s h m = ground arith

-- A command that starts motion on a cell that is not latched, and whose run succeeds without the
-- latch being set meanwhile, leaves the cell as a new one: idle, with no error and no stop request.
execute-ok :
    (c : Command) (s s' : CellSupervisor)
    → s.latched ≡ false
    → c.starts_motion ≡ true
    → c.run (begin moving s).0 ≡ (s', success)
    → s'.latched ≡ false
    → execute c s ≡ init
unfolding execute init
execute-ok c s s' h m r u = ground arith

-- A command that fails on a cell that is not latched leaves the cell faulted with its message, and
-- the stop request as its run left it.
execute-err :
    (c : Command) (s s' : CellSupervisor) (why : CellError)
    → s.latched ≡ false
    → c.run (if c.starts_motion then (begin moving s).0 else s) ≡ (s', err why)
    → s'.latched ≡ false
    → execute c s ≡ record s' { state = faulted; last_error = why ∷ [] }
unfolding execute
execute-err c s s' why h r u = ground arith
