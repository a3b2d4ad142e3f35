-- ===== src/Gateway/CommandBus/Queue.antt =====
-- The queue of gateway/command_bus.hpp: its ids, and its keys.
use robonode.Prelude.{
  map, ap, some, ℕ, ◌+◌, ◌≤◌, ◌<◌, ◌≡◌, refl, ◌≢◌, inl, inr, none, List, [], ◌∷◌, ◌++◌, arith,
  length, Bool-cases, All, All-append, sym, Text, text_eq, text_eq_iff,
}
use robonode.Gateway.CommandBus.{Entry, find, find_key, replace_item, back_id}

module _ {ℓ} {T : Type ℓ} where
  -- The ids of a queue rise from above `low` and end at `high` at most.
  abbrev pub Rising : ℕ → List (Entry T) → ℕ → Type 0
  Rising low [] high = low ≤ high
  Rising low (e ∷ queue) high = (low < e.id) × Rising e.id queue high

  -- An entry with this key is not in the queue, unless the key is empty.
  abbrev pub Fresh : Text → List (Entry T) → Type 0
  Fresh key queue = All (λ (e : Entry T). key ≢ [] → e.key ≢ key) queue

  -- No two entries have one key, unless it is empty.
  abbrev pub Apart : List (Entry T) → Type 0
  Apart [] = Unit
  Apart (e ∷ queue) = Fresh e.key queue × Apart queue

  pub Rising-le : (low : ℕ) (queue : List (Entry T)) (high : ℕ) → Rising low queue high → low ≤ high
  Rising-le low [] high h = h
  Rising-le low (e ∷ queue) high (h, r) = omega (arith, Rising-le e.id queue high r)

  pub Rising-push :
      (low : ℕ) (queue : List (Entry T)) (high : ℕ) (e : Entry T)
      → e.id ≡ high + 1
      → Rising low queue high
      → Rising low (queue ++ e ∷ []) (high + 1)
  Rising-push low [] high e h r = (omega arith, omega arith)
  Rising-push low (x ∷ queue) high e h (l, r) = (l, Rising-push x.id queue high e h r)

  pub Rising-replace :
      (low : ℕ) (queue : List (Entry T)) (high : ℕ) (key : Text) (item : T)
      → Rising low queue high
      → Rising low (replace_item key item queue) high
  unfolding replace_item
  Rising-replace low [] high key item r = r
  Rising-replace low (x ∷ queue) high key item (l, r) =
      ground (arith, Rising-replace x.id queue high key item r)

  pub length-replace_item :
      (queue : List (Entry T)) (key : Text) (item : T)
      → length (replace_item key item queue) ≡ length queue
  unfolding replace_item
  length-replace_item [] key item = refl
  length-replace_item (x ∷ queue) key item = ground (arith, length-replace_item queue key item)

  Fresh-replace :
      (k : Text) (queue : List (Entry T)) (key : Text) (item : T)
      → Fresh k queue
      → Fresh k (replace_item key item queue)
  unfolding replace_item
  Fresh-replace k [] key item h = tt
  Fresh-replace k (x ∷ queue) key item (h, hs) = elim (Bool-cases (text_eq x.key key)) [
    | inl hit ↦ rw hit (h, hs)
    | inr miss ↦ rw miss (h, Fresh-replace k queue key item hs)
  ]

  pub Apart-replace :
      (queue : List (Entry T)) (key : Text) (item : T)
      → Apart queue
      → Apart (replace_item key item queue)
  unfolding replace_item
  Apart-replace [] key item h = tt
  Apart-replace (x ∷ queue) key item (h, hs) = elim (Bool-cases (text_eq x.key key)) [
    | inl hit ↦ rw hit (h, hs)
    | inr miss ↦ rw miss (Fresh-replace x.key queue key item h, Apart-replace queue key item hs)
  ]

  find_key-Fresh :
      (key : Text) (queue : List (Entry T)) → find_key key queue ≡ none → Fresh key queue
  unfolding find_key
  find_key-Fresh key [] h = tt
  find_key-Fresh key (e ∷ queue) h = elim (Bool-cases (text_eq e.key key)) [
    | inl hit ↦ absurd (ground arith)
    | inr miss ↦ (
      λ _ same. ground (arith, (text_eq_iff e.key key).1 same),
      find_key-Fresh key queue (ground arith),
    )
  ]

  Fresh-empty : (queue : List (Entry T)) → Fresh [] queue
  Fresh-empty [] = tt
  Fresh-empty (e ∷ queue) = (λ h. absurd (h refl), Fresh-empty queue)

  pub find-Fresh : (key : Text) (queue : List (Entry T)) → find key queue ≡ none → Fresh key queue
  unfolding find
  find-Fresh [] queue h = Fresh-empty queue
  find-Fresh (k ∷ key) queue h = find_key-Fresh (k ∷ key) queue h

  pub Apart-push :
      (queue : List (Entry T)) (e : Entry T)
      → Fresh e.key queue
      → Apart queue
      → Apart (queue ++ e ∷ [])
  Apart-push [] e f a = (tt, tt)
  Apart-push (x ∷ queue) e (f, fs) (h, hs) = (
    All-append _ queue (e ∷ []) h (λ named same. f (rw same named) (sym same), tt),
    Apart-push queue e fs hs,
  )

  pub back_id-le :
      (low n : ℕ) (queue : List (Entry T)) (high : ℕ)
      → Rising low queue high
      → n ≤ high
      → back_id n queue ≤ high
  unfolding back_id
  back_id-le low n [] high r h = h
  back_id-le low n (e ∷ queue) high (l, r) h =
      back_id-le e.id e.id queue high r (Rising-le e.id queue high r)

  pub back_id-push :
      (n : ℕ) (queue : List (Entry T)) (e : Entry T) → back_id n (queue ++ e ∷ []) ≡ e.id
  unfolding back_id
  back_id-push n [] e = refl
  back_id-push n (x ∷ queue) e = back_id-push x.id queue e

  pub back_id-replace :
      (n : ℕ) (queue : List (Entry T)) (key : Text) (item : T)
      → back_id n (replace_item key item queue) ≡ back_id n queue
  unfolding back_id replace_item
  back_id-replace n [] key item = refl
  back_id-replace n (x ∷ queue) key item = ground (arith, back_id-replace x.id queue key item)

  pub back_id_front :
      {n : ℕ} (e : Entry T) (queue : List (Entry T))
      → back_id n (e ∷ queue) ≡ n
      → back_id n queue ≡ n
  unfolding back_id
  back_id_front e [] h = refl
  back_id_front e (x ∷ queue) h = h

  pub lt-back_id :
      (low high n : ℕ) (e : Entry T) (queue : List (Entry T))
      → Rising low (e ∷ queue) high
      → low < back_id n (e ∷ queue)
  unfolding back_id
  lt-back_id low high n e [] (l, r) = l
  lt-back_id low high n e (x ∷ queue) (l, r) = omega (arith, lt-back_id e.id high e.id x queue r)

  -- The ids of a queue, and the entry under a key, after an item was replaced.
  pub ids-replace :
      (queue : List (Entry T)) (key : Text) (item : T)
      → map (λ (e : Entry T). e.id) (replace_item key item queue) ≡ map (λ e. e.id) queue
  unfolding replace_item
  ids-replace [] key item = refl
  ids-replace (x ∷ queue) key item = elim (Bool-cases (text_eq x.key key)) [
    | inl hit ↦ rw hit
    | inr miss ↦ rw miss (ap (◌∷◌ x.id) (ids-replace queue key item))
  ]

  find_key-replace :
      (queue : List (Entry T)) (key : Text) (item : T) (e : Entry T)
      → find_key key queue ≡ some e
      → find_key key (replace_item key item queue) ≡ some (record e { item = item })
  unfolding find_key replace_item
  find_key-replace [] key item e h = absurd (ground arith)
  find_key-replace (x ∷ queue) key item e h = ground (arith, find_key-replace queue key item e)

  pub find-replace :
      (queue : List (Entry T)) (key : Text) (item : T) (e : Entry T)
      → find key queue ≡ some e
      → find key (replace_item key item queue) ≡ some (record e { item = item })
  unfolding find
  find-replace queue [] item e h = absurd (ground arith)
  find-replace queue (k ∷ key) item e h = find_key-replace queue (k ∷ key) item e h
