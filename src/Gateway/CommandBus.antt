-- ===== src/Gateway/CommandBus.antt =====
-- gateway/command_bus.hpp. Each operation runs under the bus's mutex, so it is one step; the worker
-- takes an entry in one step and finishes it in another, and others may act in between. The handler
-- is seen by its calls.
pub mod Queue
pub mod Invariant
pub mod Order
use robonode.Prelude.{
  ℕ, zero, suc, ◌+◌, Bool, true, false, Option, none, some, List, [], ◌∷◌, ◌++◌, ltb, if◌then◌else◌,
  length, Text, text_eq, is_empty,
}

pub record Entry {ℓ} (T : Type ℓ) : Type ℓ where
  pub id : ℕ
  pub key : Text
  pub item : T

-- `running` is the worker's local entry while its handler runs; `calls` lists what the handler was
-- called with, newest first.
pub record CommandBus {ℓ} (T : Type ℓ) : Type ℓ where
  pub capacity : ℕ
  pub queue : List (Entry T)
  pub last_id : ℕ
  pub applied : ℕ
  pub stop : Bool
  pub running : Option (Entry T)
  pub calls : List (ℕ × T)

pub data Reason : Type 0 where
  no_reason coalesced queue_full : Reason

pub record Ack : Type 0 where
  pub id : ℕ
  pub accepted : Bool
  pub reason : Reason
  pub depth : ℕ

module _ {ℓ} {T : Type ℓ} where
  unfoldable pub init : ℕ → CommandBus T
  init capacity = record {
    capacity = capacity;
    queue = [];
    last_id = 0;
    applied = 0;
    stop = false;
    running = none;
    calls = [];
  }

  -- The loop of `find`.
  unfoldable pub find_key : Text → List (Entry T) → Option (Entry T)
  find_key key [] = none
  find_key key (e ∷ queue) = if text_eq e.key key then some e else find_key key queue

  unfoldable pub find : Text → List (Entry T) → Option (Entry T)
  unfolding find_key
  find key queue = if is_empty key then none else find_key key queue

  -- `pending->item = std::move(item)`, at the entry that `find` points to
  unfoldable pub replace_item : Text → T → List (Entry T) → List (Entry T)
  replace_item key item [] = []
  replace_item key item (e ∷ queue) =
      if text_eq e.key key
      then record e { item = item } ∷ queue
      else e ∷ replace_item key item queue

  unfoldable pub enqueue : CommandBus T → T → Text → CommandBus T × Ack
  enqueue b item key =
      if ltb (length b.queue) b.capacity
      then (
        record b {
          last_id = b.last_id + 1;
          queue = b.queue ++ record { id = b.last_id + 1; key = key; item = item } ∷ [];
        },
        record {
          id = b.last_id + 1;
          accepted = true;
          reason = no_reason;
          depth = length b.queue + 1;
        },
      )
      else (b, record { id = 0; accepted = false; reason = queue_full; depth = length b.queue })

  unfoldable pub submit_at : Option (Entry T) → CommandBus T → T → Text → CommandBus T × Ack
  unfolding replace_item enqueue
  submit_at (some pending) b item key = (
    record b { queue = replace_item key item b.queue },
    record { id = pending.id; accepted = true; reason = coalesced; depth = length b.queue },
  )
  submit_at none b item key = enqueue b item key

  unfoldable pub submit : CommandBus T → T → Text → CommandBus T × Ack
  unfolding find submit_at
  submit b item key = submit_at (find key b.queue) b item key

  -- `queue_.back().id`, or a default for the empty queue
  unfoldable pub back_id : ℕ → List (Entry T) → ℕ
  back_id n [] = n
  back_id n (e ∷ queue) = back_id e.id queue

  unfoldable pub discard_pending : CommandBus T → CommandBus T × ℕ
  unfolding back_id
  discard_pending b = (record b { applied = back_id b.applied b.queue; queue = [] }, length b.queue)

  -- The worker's turn: it waits while the queue is empty, and returns once `stop` is set.
  unfoldable pub take_front : List (Entry T) → CommandBus T → Option (CommandBus T)
  take_front [] b = none
  take_front (e ∷ queue) b =
      some (record b { queue = queue; running = some e; calls = (e.id, e.item) ∷ b.calls })

  unfoldable pub take_at : Option (Entry T) → CommandBus T → Option (CommandBus T)
  unfolding take_front
  take_at (some e) b = none
  take_at none b = if b.stop then none else take_front b.queue b

  unfoldable pub take : CommandBus T → Option (CommandBus T)
  unfolding take_at
  take b = take_at b.running b

  -- `applied_.store(entry.id)`, when the handler has returned.
  unfoldable pub finish_at : Option (Entry T) → CommandBus T → Option (CommandBus T)
  finish_at none b = none
  finish_at (some e) b = some (record b { applied = e.id; running = none })

  unfoldable pub finish : CommandBus T → Option (CommandBus T)
  unfolding finish_at
  finish b = finish_at b.running b

  -- The destructor's request.
  unfoldable pub shut_down : CommandBus T → CommandBus T
  shut_down b = record b { stop = true }

  -- Rounds of `loop` while no caller acts: the worker takes an entry, and finishes it.
  unfoldable pub work : ℕ → CommandBus T → Option (CommandBus T)
  unfolding take finish
  work zero b = some b
  work (suc n) b = elim (take b) [
    | none ↦ none
    | some b' ↦ elim (finish b') [ none ↦ none | some b'' ↦ work n b'' ]
  ]
