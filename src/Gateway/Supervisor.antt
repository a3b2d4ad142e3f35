-- ===== src/Gateway/Supervisor.antt =====
-- gateway/cell_supervisor.hpp: the state machine of a cell, its latch and its stop request
-- (core/cancel.hpp); and `CellGateway::execute` of gateway/cell_gateway.hpp, which drives it from the
-- worker.
pub mod Latch
pub mod StopRequest
use robonode.Prelude.{ℕ, Bool, true, false, List, [], ◌∷◌, if◌then◌else◌, ◌==◌, Text}
use robonode.Core.Map.{Map}
use robonode.Core.Result.{Result, ok, err, Status, success}

pub data CellState : Type 0 where
  idle building planning moving held faulted : CellState

-- The messages of the supervisor, and those of the commands that the worker runs.
pub data CellError : Type 0 where
  cell_is_latched not_latched : CellError
  command_failed : Text → CellError

-- `last_error` lists no message, or one. `cancel` is the flag of the `CancelToken`.
pub record CellSupervisor : Type 0 where
  pub state : CellState
  pub last_error : List CellError
  pub latched : Bool
  pub cancel : Bool

unfoldable pub init : CellSupervisor
init = record { state = idle; last_error = []; latched = false; cancel = false }

unfoldable pub begin : CellState → CellSupervisor → CellSupervisor × Status CellError
begin next s = if s.latched then (s, err cell_is_latched) else (record s { state = next }, success)

unfoldable pub end : CellState → CellSupervisor → CellSupervisor
end next s =
    if s.latched
    then record s { cancel = false }
    else record s { state = next; last_error = []; cancel = false }

unfoldable pub fault : CellError → CellSupervisor → CellSupervisor
fault why s =
    if s.latched
    then record s { last_error = why ∷ [] }
    else record s { last_error = why ∷ []; state = faulted }

unfoldable pub stop : CellSupervisor → CellSupervisor × Status CellError
stop s = (record s { cancel = true }, success)

unfoldable pub estop : CellSupervisor → CellSupervisor × Status CellError
estop s = (record s { latched = true; state = held; cancel = true }, success)

unfoldable pub resume : CellSupervisor → CellSupervisor × Status CellError
resume s =
    if s.latched
    then (record { state = idle; last_error = []; latched = false; cancel = false }, success)
    else (s, err not_latched)

unfoldable pub working : CellSupervisor → Bool
working s = elim s.state [ building ↦ true | planning ↦ true | moving ↦ true | _ ↦ false ]

-- A call of the supervisor, by whichever thread; each runs under its mutex.
pub data Call : Type 0 where
  begins ends : CellState → Call
  faults : CellError → Call
  stops estops resumes : Call

unfoldable pub apply : Call → CellSupervisor → CellSupervisor
unfolding begin end fault stop estop resume
apply (begins next) s = (begin next s).0
apply (ends next) s = end next s
apply (faults why) s = fault why s
apply stops s = (stop s).0
apply estops s = (estop s).0
apply resumes s = (resume s).0

unfoldable pub apply_all : List Call → CellSupervisor → CellSupervisor
unfolding apply
apply_all [] s = s
apply_all (c ∷ cs) s = apply_all cs (apply c s)

-- A field of a reply: a JSON value that the code writes, or the text of another one.
pub data Field : Type 0 where
  flag : Bool → Field
  number : ℕ → Field
  dumped : Text → Field

-- `execute`: what the worker does with a command, by whether it starts motion, and with what its
-- `run` does: calls of the supervisor, and a status. The log, the snapshot of the scene and the
-- telemetry are left out.
pub record Command : Type 0 where
  pub name : Text
  pub key : Text
  pub ack : Map Field
  pub starts_motion : Bool
  pub run : CellSupervisor → CellSupervisor × Status CellError

unfoldable pub settle : Bool → CellSupervisor → Status CellError → CellSupervisor
unfolding end fault
settle starts_motion s (err why) = fault why s
settle starts_motion s (ok _) = if starts_motion then end idle s else s

unfoldable pub run_command : Command → CellSupervisor → CellSupervisor
unfolding settle
run_command c s = let (s', st) = c.run s in settle c.starts_motion s' st

unfoldable pub execute_at : Command → CellSupervisor → Status CellError → CellSupervisor
unfolding run_command fault
execute_at c s (err why) = fault why s
execute_at c s (ok _) = run_command c s

unfoldable pub execute : Command → CellSupervisor → CellSupervisor
unfolding execute_at begin
execute c s =
    let (s', st) = if c.starts_motion then begin moving s else (s, success) in execute_at c s' st
