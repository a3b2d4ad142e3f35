-- ===== src/Gateway/Router/Estop.antt =====
-- The e-stop of a whole cell: gateway/command_router.hpp, cell_supervisor.hpp and command_bus.hpp.
use robonode.Prelude.{
  ◌+◌, ◌<◌, ◌≡◌, refl, ◌∙◌, true, false, none, some, [], ◌∷◌, lt→ltb, bytes, text_eq,
}
use robonode.Core.Map.{Map, find, assign, find-assign, find-assign_other}
use robonode.Core.Result.{ok, success}
use robonode.Gateway.Supervisor.{estop, flag, number, held, Command}
use robonode.Gateway.CommandBus.{Entry}
use robonode.Gateway.Router.{
  Json, Cell, Builder, dispatch_verb, register_supervisor_verbs, build_stop, build_estop,
  build_resume, receipt, serve,
}

module _ {J : Type 0} (builders : Map (Builder J)) where
  find-estop : find (bytes "estop") (register_supervisor_verbs builders) ≡ some build_estop
  unfolding register_supervisor_verbs text_eq
  find-estop =
      find-assign_other (bytes "estop") (bytes "resume") build_resume
        (assign (bytes "estop") build_estop (assign (bytes "stop") build_stop builders)) refl
      ∙ find-assign (bytes "estop") build_estop (assign (bytes "stop") build_stop builders)

module _ {J : Type 0} (json : Json J) (builders : Map (Builder J)) (args : J) (g : Cell) where
  -- An e-stop takes effect before it is answered, whatever verbs else are registered and whatever
  -- the worker is doing: on a bus that has room for one entry, the supervisor is latched and held
  -- and has the stop request up, nothing of the queue is left but one entry, a command that starts no
  -- motion and whose run does nothing and succeeds, and the answer carries its id.
  pub estop-dispatch :
      (0 < g.bus.capacity)
      → let (g', reply) =
          dispatch_verb json (register_supervisor_verbs builders) (bytes "estop") args g in
        (g'.supervisor.latched ≡ true)
        × (g'.supervisor.state ≡ held)
        × (g'.supervisor.cancel ≡ true)
        × (e : Entry Command) × (g'.bus.queue ≡ e ∷ [])
        × (e.id ≡ g.bus.last_id + 1)
        × (e.item.starts_motion ≡ false)
        × (e.item.run ≡ (λ s. (s, success)))
        × (g'.bus.running ≡ g.bus.running)
        × (reply
            ≡ ok (
                (bytes "id", number (g.bus.last_id + 1))
                ∷ (bytes "ok", flag true)
                ∷ (bytes "queued", number 1)
                ∷ []))
  unfolding dispatch_verb build_estop estop receipt
  estop-dispatch h =
      rw (find-estop builders, lt→ltb 0 g.bus.capacity h)
        (refl, refl, refl, _, refl, refl, refl, refl, refl, refl)

  -- The worker then takes the receipt: where it was idle, and is not told to stop, one round of it
  -- leaves the supervisor as the e-stop put it, with no fault, reports every id as applied, and has
  -- nothing left to do.
  estop-serve :
      0 < g.bus.capacity
      → g.bus.running ≡ none
      → g.bus.stop ≡ false
      → let g' =
          (dispatch_verb json (register_supervisor_verbs builders) (bytes "estop") args g).0 in
        (g'' : Cell) × (serve g' ≡ some g'')
        × (g''.supervisor ≡ (estop g.supervisor).0)
        × (g''.bus.applied ≡ g''.bus.last_id)
        × (serve g'' ≡ none)
  unfolding dispatch_verb build_estop serve
  estop-serve h idle up =
      rw (find-estop builders, lt→ltb 0 g.bus.capacity h, idle, up) (_, refl, refl, refl, refl)
