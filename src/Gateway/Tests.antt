-- ===== src/Gateway/Tests.antt =====
-- Concrete runs of the command bus and of the supervisor, and the theorems at concrete inputs.
use robonode.Prelude.{ℕ, ◌<◌, ◌≡◌, refl, true, false, none, some, [], ◌∷◌, Text, bytes, arith}
use robonode.Core.Result.{ok, err, success}
use robonode.Gateway.CommandBus.{
  Entry, CommandBus, submit, discard_pending, take, finish, work, back_id,
}
use robonode.Gateway.CommandBus
use robonode.Gateway.CommandBus.Invariant.{Inv, submits, takes, Reach, here, next, Reach-Inv}
use robonode.Gateway.CommandBus.Order.{work-length, discard_pending-finish}
use robonode.Gateway.Supervisor.{
  CellState, held, moving, CellError, CellSupervisor, begin, stop, estop, working, Call, begins,
  ends, faults, stops, estops, apply_all, Command, execute,
}
use robonode.Gateway.Supervisor
use robonode.Gateway.Supervisor.Latch.{estop-apply_all}
use robonode.Gateway.Supervisor.StopRequest.{stop-begin}
use robonode.Gateway.Supervisor.{Field, flag, number}
use robonode.Gateway.Router.{
  Json, RouterError, Cell, dispatch, dispatch_verb, register_supervisor_verbs,
}
use robonode.Gateway.Router.Estop.{estop-dispatch}

abbrev fresh : CommandBus ℕ
fresh = CommandBus.init 2

abbrev first_entry : Entry ℕ
first_entry = record { id = 1; key = []; item = 10 }

abbrev second_entry : Entry ℕ
second_entry = record { id = 2; key = bytes "jog"; item = 20 }

-- The worker runs the first command, and a second one waits.
abbrev busy : CommandBus ℕ
busy = record {
  capacity = 2;
  queue = second_entry ∷ [];
  last_id = 2;
  applied = 0;
  stop = false;
  running = some first_entry;
  calls = (1, 10) ∷ [];
}

busy-Reach : Reach fresh busy
unfolding CommandBus.init submit take
busy-Reach = next (next (next here (submits 10 [])) (takes refl)) (submits 20 (bytes "jog"))

Reach-Inv_example : Inv busy
Reach-Inv_example = Reach-Inv 2 busy-Reach

abbrev waiting : CommandBus ℕ
waiting = record busy { running = none }

work-length_example :
    work 1 waiting
    ≡ some (record waiting { queue = []; applied = 2; calls = (2, 20) ∷ (1, 10) ∷ [] })
unfolding back_id
work-length_example = work-length waiting refl refl

discard_pending-finish_example :
    let c = (discard_pending busy).0 in
    (c.applied ≡ c.last_id)
    × ((d : CommandBus ℕ) × (finish c ≡ some d)
        × (d.applied ≡ 1)
        × (d.applied < d.last_id)
        × (d.queue ≡ [])
        × (take d ≡ none)
        × (finish d ≡ none))
discard_pending-finish_example =
    discard_pending-finish busy first_entry (Reach-Inv 2 busy-Reach) refl (λ e. cc)

abbrev moved : CellSupervisor
moved = apply_all (begins moving ∷ estops ∷ ends CellState.idle ∷ []) Supervisor.init

abbrev latched : CellSupervisor
latched = record { state = held; last_error = []; latched = true; cancel = true }

estop-apply_all_example :
    let s = apply_all (ends CellState.idle ∷ begins moving ∷ []) (estop latched).0 in
    (s.latched ≡ true) × (s.state ≡ held)
estop-apply_all_example =
    estop-apply_all (ends CellState.idle ∷ begins moving ∷ []) latched ((λ e. cc), ((λ e. cc), tt))

-- A motion that succeeds, and one that fails.
abbrev move : Command
move = record {
  name = bytes "run";
  key = [];
  ack = [];
  starts_motion = true;
  run = λ s. (s, success);
}

abbrev stuck : Command
stuck = record {
  name = bytes "run";
  key = [];
  ack = [];
  starts_motion = true;
  run = λ s. (s, err (CellError.command_failed []));
}

abbrev idle_cell : CellSupervisor
idle_cell = record { state = CellState.idle; last_error = []; latched = false; cancel = true }

stop-begin_example :
    let (s, st) = begin moving (apply_all (stops ∷ []) (stop idle_cell).0) in
    (st ≡ success) × (s.cancel ≡ true)
stop-begin_example = stop-begin (stops ∷ []) idle_cell (tt, tt) ((λ e. cc), tt) refl

-- A parser that takes every text for a request with no arguments.
abbrev json : Json Text
json = record {
  parse = λ body. some body;
  contains_cmd = λ body. true;
  cmd = λ body. body;
  is_object = λ body. false;
  no_args = [];
}

-- A motion waits in a cell that is moving another.
abbrev cell : Cell
cell = record {
  supervisor = record { state = moving; last_error = []; latched = false; cancel = false };
  bus = (submit (CommandBus.init 4) move []).0;
}

dispatch-unknown :
    (dispatch json (register_supervisor_verbs []) (bytes "halt") cell).1
    ≡ err (RouterError.unknown_cmd (bytes "halt"))
unfolding dispatch register_supervisor_verbs
dispatch-unknown = refl

estop-dispatch_example :
    let (g', reply) = dispatch_verb json (register_supervisor_verbs []) (bytes "estop") [] cell in
    (g'.supervisor.latched ≡ true)
    × (g'.supervisor.state ≡ held)
    × (g'.supervisor.cancel ≡ true)
    × (e : Entry Command) × (g'.bus.queue ≡ e ∷ [])
    × (e.id ≡ 2)
    × (e.item.starts_motion ≡ false)
    × (e.item.run ≡ (λ s. (s, success)))
    × (g'.bus.running ≡ none)
    × (reply
        ≡ ok ((bytes "id", number 2) ∷ (bytes "ok", flag true) ∷ (bytes "queued", number 1) ∷ []))
unfolding submit CommandBus.init
estop-dispatch_example = estop-dispatch json [] [] cell (omega arith)
