-- ===== src/Gateway/CommandBus/Order.antt =====
-- What a submitter of gateway/command_bus.hpp can rely on: the order of the work, and what becomes of
-- the ids that `discard_pending` drops.
use mathlib.Core.Path.{subst}
use robonode.Prelude.{
  ◌≢◌, ℕ, ◌<◌, ◌≡◌, refl, ap, ◌∙◌, false, none, some, List, [], ◌∷◌, length, arith,
}
use robonode.Gateway.CommandBus.{
  Entry, CommandBus, back_id, discard_pending, take, finish, finish_at, work,
}
use robonode.Gateway.CommandBus.Queue.{Rising, Rising-le}
use robonode.Gateway.CommandBus.Invariant.{Inv, Ran}

module _ {ℓ} {T : Type ℓ} where
  -- The calls of the handler after it was given a whole queue.
  abbrev pub called_with : List (Entry T) → List (ℕ × T) → List (ℕ × T)
  called_with [] calls = calls
  called_with (e ∷ queue) calls = called_with queue ((e.id, e.item) ∷ calls)

  -- The bus with an idle worker and this queue.
  abbrev ready : CommandBus T → List (Entry T) → CommandBus T
  ready b queue = record b { queue = queue; running = none; stop = false }

  work-ready :
      (queue : List (Entry T)) (b : CommandBus T)
      → work (length queue) (ready b queue)
        ≡ some (record (ready b []) {
          applied = back_id b.applied queue;
          calls = called_with queue b.calls;
        })
  unfolding work back_id
  work-ready [] b = refl
  work-ready (e ∷ queue) b =
      work-ready queue (record b { applied = e.id; calls = (e.id, e.item) ∷ b.calls })

  -- While no caller acts, an idle worker that is not told to stop empties the queue in as many
  -- rounds as it has entries: the handler is called once for each entry, in the order of the queue,
  -- and `applied` ends at the id of the last one.
  pub work-length :
      (b : CommandBus T)
      → b.running ≡ none
      → b.stop ≡ false
      → work (length b.queue) b
        ≡ some (record b {
          queue = [];
          running = none;
          stop = false;
          applied = back_id b.applied b.queue;
          calls = called_with b.queue b.calls;
        })
  work-length b idle live =
      ap (work (length b.queue)) (λ i. record b { running = idle i; stop = live i })
      ∙ work-ready b.queue b

  back_id_last :
      (n : ℕ) (queue : List (Entry T)) (last : ℕ)
      → queue ≢ []
      → back_id last queue ≡ last
      → back_id n queue ≡ last
  unfolding back_id
  back_id_last n [] last some_left h = absurd (some_left refl)
  back_id_last n (e ∷ queue) last some_left h = h

  -- On a queue that is not empty, `discard_pending` empties it, reports its length, calls the
  -- handler for none of its entries, and reports every accepted command as applied.
  discard_pending-last_id :
      (b : CommandBus T)
      → Inv b
      → b.queue ≢ []
      → let (c, dropped) = discard_pending b in
        (c.queue ≡ []) × (dropped ≡ length b.queue) × (c.calls ≡ b.calls) × (c.applied ≡ c.last_id)
  unfolding discard_pending
  discard_pending-last_id b v h =
      (refl, refl, refl, back_id_last b.applied b.queue b.last_id h v.back)

  lt-last :
      (low : ℕ) (queue : List (Entry T)) (last : ℕ)
      → queue ≢ []
      → Rising low queue last
      → low < last
  lt-last low [] last h r = absurd (h refl)
  lt-last low (e ∷ queue) last h (l, r) = omega (arith, Rising-le e.id queue last r)

  -- But where the handler was running meanwhile, its end takes `applied` back: from the last id to
  -- that of the running entry, which is smaller. Nothing is left then that the worker could take or
  -- finish, so the dropped ids stay unreported until another command is submitted.
  pub discard_pending-finish :
      (b : CommandBus T) (e : Entry T)
      → Inv b
      → b.running ≡ some e
      → b.queue ≢ []
      → let c = (discard_pending b).0 in
        (c.applied ≡ c.last_id)
        × ((d : CommandBus T) × (finish c ≡ some d)
            × (d.applied ≡ e.id)
            × (d.applied < d.last_id)
            × (d.queue ≡ [])
            × (take d ≡ none)
            × (finish d ≡ none))
  unfolding discard_pending finish take
  discard_pending-finish b e v is h = (
    back_id_last b.applied b.queue b.last_id h v.back,
    (
      record b { queue = []; applied = e.id; running = none },
      ap (λ o. finish_at o (discard_pending b).0) is,
      refl,
      omega (arith, subst (Ran v.top) is v.ran, lt-last v.top b.queue b.last_id h v.rising),
      refl,
      ground arith,
      refl,
    ),
  )
