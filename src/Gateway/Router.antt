-- ===== src/Gateway/Router.antt =====
-- gateway/command_router.hpp, the verbs of gateway/cell_supervisor.hpp that it dispatches, and the
-- worker of gateway/cell_gateway.hpp that the bus calls: a cell, from a request to its effect.
pub mod Estop
use robonode.Prelude.{
  ℕ, zero, suc, Bool, true, false, not, ◌||◌, if◌then◌else◌, Option, none, some, List, [], ◌∷◌,
  Text, bytes,
}
use robonode.Core.Map.{Map, find, assign}
use robonode.Core.Result.{Result, ok, err, Status, success}
use robonode.Gateway.CommandBus.{
  Entry, CommandBus, Ack, Reason, submit, discard_pending, take, finish,
}
use robonode.Gateway.Supervisor.{
  CellError, CellSupervisor, stop, estop, resume, Field, flag, number, Command, execute,
}

-- What the code asks of a parsed JSON value.
pub record Json (J : Type 0) : Type 0 where
  pub parse : Text → Option J
  pub contains_cmd : J → Bool
  pub cmd : J → Text
  pub is_object : J → Bool
  pub no_args : J

pub data RouterError : Type 0 where
  bad_command : RouterError
  unknown_cmd : Text → RouterError
  refused : CellError → RouterError
  not_accepted : Reason → RouterError

-- The supervisor and the bus of a `CellGateway`.
pub record Cell : Type 0 where
  pub supervisor : CellSupervisor
  pub bus : CommandBus Command

-- A builder returns the command that it fills in, and may act on the cell.
abbrev pub Builder : Type 0 → Type 0
Builder J = J → Cell → Cell × Result CellError Command

-- The loop of `ack_json` over the items of `extra`.
unfoldable pub put_all : Map Field → Map Field → Map Field
unfolding assign
put_all [] out = out
put_all ((k, v) ∷ extra) out = put_all extra (assign k v out)

-- An `err` stands for `{"ok": false, "error": …}`.
unfoldable pub ack_json : Ack → Map Field → Result RouterError (Map Field)
unfolding put_all assign
ack_json ack extra =
    if ack.accepted
    then ok (
        put_all extra (
          assign (bytes "queued") (number ack.depth)
            (assign (bytes "id") (number ack.id) (assign (bytes "ok") (flag true) []))))
    else err (not_accepted ack.reason)

-- `CellGateway::accept`, less the telemetry.
unfoldable pub accept : Command → Cell → Cell × Ack
unfolding submit
accept c g = let (bus, ack) = submit g.bus c c.key in (record g { bus = bus }, ack)

unfoldable pub submit_built :
    Text → Cell × Result CellError Command → Cell × Result RouterError (Map Field)
unfolding accept ack_json
submit_built verb (g, err e) = (g, err (refused e))
submit_built verb (g, ok c) =
    let (g', ack) = accept (record c { name = verb }) g in (g', ack_json ack c.ack)

module _ {J : Type 0} (json : Json J) where
  unfoldable pub dispatch_to :
      Option (Builder J) → Text → J → Cell → Cell × Result RouterError (Map Field)
  unfolding submit_built
  dispatch_to none verb args g = (g, err (unknown_cmd verb))
  dispatch_to (some build) verb args g =
      submit_built verb (build (if json.is_object args then args else json.no_args) g)

  -- The second overload of `dispatch`.
  unfoldable pub dispatch_verb :
      Map (Builder J) → Text → J → Cell → Cell × Result RouterError (Map Field)
  unfolding find dispatch_to
  dispatch_verb builders verb args g = dispatch_to (find verb builders) verb args g

  unfoldable pub dispatch_parsed :
      Map (Builder J) → Option J → Cell → Cell × Result RouterError (Map Field)
  unfolding dispatch_verb
  dispatch_parsed builders none g = (g, err bad_command)
  dispatch_parsed builders (some j) g =
      if json.contains_cmd j then dispatch_verb builders (json.cmd j) j g else (g, err bad_command)

  unfoldable pub dispatch : Map (Builder J) → Text → Cell → Cell × Result RouterError (Map Field)
  unfolding dispatch_parsed
  dispatch builders body g = dispatch_parsed builders (json.parse body) g

-- The command of the three verbs: `run` succeeds, and no motion starts.
unfoldable pub receipt : Command
receipt = record { name = []; key = []; ack = []; starts_motion = false; run = λ s. (s, success) }

unfoldable pub with_status :
    CellSupervisor × Status CellError → Cell → Cell × Result CellError Command
unfolding receipt
with_status (s, ok _) g = (record g { supervisor = s }, ok receipt)
with_status (s, err e) g = (record g { supervisor = s }, err e)

module _ {J : Type 0} where
  unfoldable pub build_stop : Builder J
  unfolding stop receipt
  build_stop args g = (record g { supervisor = (stop g.supervisor).0 }, ok receipt)

  -- With `drop_pending` as the gateway gives it: `discard_pending` of the bus.
  unfoldable pub build_estop : Builder J
  unfolding estop discard_pending receipt
  build_estop args g =
      (record { supervisor = (estop g.supervisor).0; bus = (discard_pending g.bus).0 }, ok receipt)

  unfoldable pub build_resume : Builder J
  unfolding resume with_status
  build_resume args g = with_status (resume g.supervisor) g

  unfoldable pub register_supervisor_verbs : Map (Builder J) → Map (Builder J)
  unfolding assign build_stop build_estop build_resume
  register_supervisor_verbs builders =
      assign (bytes "resume") build_resume
        (assign (bytes "estop") build_estop (assign (bytes "stop") build_stop builders))

-- The worker: `execute` is the handler of the bus.
unfoldable pub handle : Option (Entry Command) → CellSupervisor → CellSupervisor
unfolding execute
handle none s = s
handle (some e) s = execute e.item s

-- A round of the worker, with no request in between.
unfoldable pub serve : Cell → Option Cell
unfolding take finish handle
serve g = elim (take g.bus) [
  | none ↦ none
  | some b ↦ elim (finish b) [
    | none ↦ none
    | some b' ↦ some (record { supervisor = handle b.running g.supervisor; bus = b' })
  ]
]
