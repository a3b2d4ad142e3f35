-- ===== src/Gateway/CommandBus/Invariant.antt =====
-- What every interleaving of the callers of gateway/command_bus.hpp and its worker keeps.
use mathlib.Core.Path.{subst}
use robonode.Prelude.{
  ◌∙◌, ℕ, ◌+◌, ◌≤◌, ◌<◌, ◌≡◌, refl, inl, inr, Option, none, some, List, [], ◌∷◌, arith, length,
  length-append, Bool-cases, ltb→lt, Text, ltb,
}
use robonode.Gateway.CommandBus.{
  Entry, CommandBus, init, find, submit_at, submit, discard_pending, back_id, take, take_at,
  take_front, finish, finish_at, shut_down,
}
use robonode.Gateway.CommandBus.Queue.{
  Rising, Apart, Rising-le, Rising-push, Rising-replace, length-replace_item, Apart-replace,
  find-Fresh, Apart-push, back_id-le, back_id-push, back_id-replace, back_id_front,
}

module _ {ℓ} {T : Type ℓ} where
  -- The calls of the handler have falling ids, newest first, the first of them `top`.
  abbrev pub Falling : ℕ → List (ℕ × T) → Type 0
  Falling top [] = top ≡ 0
  Falling top (c ∷ calls) = (c.0 ≡ top) × ((n : ℕ) × (n < top) × Falling n calls)

  abbrev pub Ran : ℕ → Option (Entry T) → Type 0
  Ran top none = Unit
  Ran top (some e) = e.id ≡ top

  -- `top` is the id of the last entry that the worker took.
  pub record Inv (b : CommandBus T) : Type ℓ where
    pub top : ℕ
    pub rising : Rising top b.queue b.last_id
    pub bounded : length b.queue ≤ b.capacity
    pub apart : Apart b.queue
    pub called : Falling top b.calls
    pub ran : Ran top b.running
    pub counted : b.applied ≤ b.last_id
    pub back : back_id b.last_id b.queue ≡ b.last_id

  -- One step of a caller or of the worker.
  pub data Step (b : CommandBus T) : CommandBus T → Type ℓ where
    submits : (item : T) (key : Text) → Step b (submit b item key).0
    discards : Step b (discard_pending b).0
    takes : {b' : CommandBus T} → take b ≡ some b' → Step b b'
    finishes : {b' : CommandBus T} → finish b ≡ some b' → Step b b'
    stops : Step b (shut_down b)

  pub data Reach (b : CommandBus T) : CommandBus T → Type ℓ where
    here : Reach b b
    next : {c c' : CommandBus T} → Reach b c → Step c c' → Reach b c'

  init-Inv : (capacity : ℕ) → Inv (init {T = T} capacity)
  unfolding init back_id
  init-Inv capacity = record {
    top = 0;
    rising = omega arith;
    bounded = omega arith;
    apart = tt;
    called = refl;
    ran = tt;
    counted = omega arith;
    back = refl;
  }

  submit_at-Inv :
      (b : CommandBus T) (o : Option (Entry T)) (item : T) (key : Text)
      → find key b.queue ≡ o
      → Inv b
      → Inv (submit_at o b item key).0
  unfolding submit_at
  submit_at-Inv b (some e) item key is v = record {
    top = v.top;
    rising = Rising-replace v.top b.queue b.last_id key item v.rising;
    bounded = omega (arith, v.bounded, length-replace_item b.queue key item);
    apart = Apart-replace b.queue key item v.apart;
    called = v.called;
    ran = v.ran;
    counted = v.counted;
    back = back_id-replace b.last_id b.queue key item ∙ v.back;
  }
  submit_at-Inv b none item key is v = elim (Bool-cases (ltb (length b.queue) b.capacity)) [
    | inr full ↦ rw full v
    | inl room ↦
        let e : Entry T = record { id = b.last_id + 1; key = key; item = item } in
        rw room (record {
          top = v.top;
          rising = Rising-push v.top b.queue b.last_id e refl v.rising;
          bounded = omega (arith, ltb→lt _ _ room, length-append b.queue (e ∷ []));
          apart = Apart-push b.queue e (find-Fresh key b.queue is) v.apart;
          called = v.called;
          ran = v.ran;
          counted = omega (arith, v.counted);
          back = back_id-push (b.last_id + 1) b.queue e;
        })
  ]

  discard-Inv : (b : CommandBus T) → Inv b → Inv (discard_pending b).0
  unfolding discard_pending back_id
  discard-Inv b v = record {
    top = v.top;
    rising = Rising-le v.top b.queue b.last_id v.rising;
    bounded = omega arith;
    apart = tt;
    called = v.called;
    ran = v.ran;
    counted = back_id-le v.top b.applied b.queue b.last_id v.rising v.counted;
    back = refl;
  }

  take_front-Inv :
      (b : CommandBus T) (queue : List (Entry T)) {b' : CommandBus T}
      → b.queue ≡ queue
      → take_front queue b ≡ some b'
      → Inv b
      → Inv b'
  unfolding take_front
  take_front-Inv b [] is h v = absurd (ground arith)
  take_front-Inv b (e ∷ queue) is h v = subst Inv (ground arith) (
      started (subst (λ q. Rising v.top q b.last_id) is v.rising) (subst Apart is v.apart)
        (subst (λ q. length q ≤ b.capacity) is v.bounded)
        (subst (λ q. back_id b.last_id q ≡ b.last_id) is v.back))
    where
      started :
          Rising v.top (e ∷ queue) b.last_id
          → Apart (e ∷ queue)
          → length (e ∷ queue) ≤ b.capacity
          → back_id b.last_id (e ∷ queue) ≡ b.last_id
          → Inv (record b { queue = queue; running = some e; calls = (e.id, e.item) ∷ b.calls })
      started (l, r) (_, a) n k = record {
        top = e.id;
        rising = r;
        bounded = omega arith;
        apart = a;
        called = (refl, (v.top, l, v.called));
        ran = refl;
        counted = v.counted;
        back = back_id_front e queue k;
      }

  take_at-Inv :
      (b : CommandBus T) (o : Option (Entry T)) {b' : CommandBus T}
      → take_at o b ≡ some b'
      → Inv b
      → Inv b'
  unfolding take_at
  take_at-Inv b (some e) h v = absurd (ground arith)
  take_at-Inv b none h v = elim (Bool-cases b.stop) [
    | inl stopped ↦ absurd (ground arith)
    | inr live ↦ take_front-Inv b b.queue refl (ground arith) v
  ]

  Falling-Ran-le :
      (b : CommandBus T) → Inv b → (e : Entry T) → b.running ≡ some e → e.id ≤ b.last_id
  Falling-Ran-le b v e is =
      omega (arith, subst (Ran v.top) is v.ran, Rising-le v.top b.queue b.last_id v.rising)

  finish-Inv :
      (b : CommandBus T) (o : Option (Entry T)) {b' : CommandBus T}
      → b.running ≡ o
      → finish_at o b ≡ some b'
      → Inv b
      → Inv b'
  unfolding finish_at
  finish-Inv b none is h v = absurd (ground arith)
  finish-Inv b (some e) is h v = subst Inv (ground arith) (
      let done : Inv (record b { applied = e.id; running = none }) = record {
        top = v.top;
        rising = v.rising;
        bounded = v.bounded;
        apart = v.apart;
        called = v.called;
        ran = tt;
        counted = Falling-Ran-le b v e is;
        back = v.back;
      } in
      done)

  -- Every step of a caller or of the worker keeps the invariant.
  pub Step-Inv : {b b' : CommandBus T} → Step b b' → Inv b → Inv b'
  unfolding submit take finish shut_down
  Step-Inv {b} (submits item key) v = submit_at-Inv b _ item key refl v
  Step-Inv {b} discards v = discard-Inv b v
  Step-Inv {b} (takes h) v = take_at-Inv b b.running h v
  Step-Inv {b} (finishes h) v = finish-Inv b b.running refl h v
  Step-Inv stops v = record {
    top = v.top;
    rising = v.rising;
    bounded = v.bounded;
    apart = v.apart;
    called = v.called;
    ran = v.ran;
    counted = v.counted;
    back = v.back;
  }

  -- In every state that a new bus can reach, under any interleaving of submissions, discards and
  -- the worker's steps: the queue is within its capacity, its ids rise and are above every id that
  -- the handler was called with, no two entries share a key that is not empty, the handler was
  -- called with falling ids seen newest first (so never twice with one id, and in the order of the
  -- ids), a running entry is the newest call, and `applied` is no more than the last id, which the back of the
  -- queue has.
  pub Reach-Inv : (capacity : ℕ) {b : CommandBus T} → Reach (init capacity) b → Inv b
  Reach-Inv capacity here = init-Inv capacity
  Reach-Inv capacity (next r s) = Step-Inv s (Reach-Inv capacity r)
