-- ===== src/Core/Map.antt =====
-- `std::map<std::string, V>`: a list of the entries, in the order of the keys, which is the order
-- of their bytes.
use robonode.Prelude.{
  ◌≡◌, refl, inl, inr, Bool, true, false, Bool-cases, if-both, Option, none, some, List, [], ◌∷◌,
  if◌then◌else◌, ltb, arith, Text, text_eq, text_eq_iff,
}

-- `a < b` on strings.
unfoldable pub text_lt : Text → Text → Bool
text_lt s [] = false
text_lt [] (b ∷ t) = true
text_lt (a ∷ s) (b ∷ t) =
    let rest = text_lt s t in if ltb a b then true else if ltb b a then false else rest

abbrev pub Map {ℓ} : Type ℓ → Type ℓ
Map V = List (Text × V)

module _ {ℓ} {V : Type ℓ} where
  -- `find`, and with it `contains` and `count`
  unfoldable pub find : Text → Map V → Option V
  unfolding text_eq
  find k [] = none
  find k ((k', v) ∷ m) = if text_eq k k' then some v else find k m

  unfoldable pub contains : Text → Map V → Bool
  unfolding find
  contains k m = elim (find k m) [ none ↦ false | some v ↦ true ]

  -- `m[k] = v`
  unfoldable pub assign : Text → V → Map V → Map V
  unfolding text_eq text_lt
  assign k v [] = (k, v) ∷ []
  assign k v ((k', w) ∷ m) =
      let later = assign k v m in
      if text_eq k k'
      then (k, v) ∷ m
      else if text_lt k k'
      then (k, v) ∷ (k', w) ∷ m
      else (k', w) ∷ later

  -- `m.erase(k)`
  unfoldable pub erase : Text → Map V → Map V
  erase k [] = []
  erase k ((k', v) ∷ m) = let later = erase k m in if text_eq k k' then m else (k', v) ∷ later

  unfoldable pub keys : Map V → List Text
  keys [] = []
  keys ((k, v) ∷ m) = k ∷ keys m

-- Every key of `m` is after `k`.
abbrev pub After {ℓ} : {V : Type ℓ} → Text → Map V → Type ℓ
After k [] = Unit
After k ((k', v) ∷ m) = (text_lt k k' ≡ true) × After k m

-- The keys rise.
abbrev pub Rises {ℓ} : {V : Type ℓ} → Map V → Type ℓ
Rises [] = Unit
Rises ((k, v) ∷ m) = After k m × Rises m

text_lt_irreflexive : (s : Text) → text_lt s s ≡ false
unfolding text_lt
text_lt_irreflexive [] = refl
text_lt_irreflexive (a ∷ s) = ground (arith, text_lt_irreflexive s)

text_lt_total : (s t : Text) → text_eq s t ≡ false → text_lt s t ≡ false → text_lt t s ≡ true
unfolding text_lt text_eq
text_lt_total [] [] h k = ground arith
text_lt_total [] (b ∷ t) h k = ground arith
text_lt_total (a ∷ s) [] h k = ground arith
text_lt_total (a ∷ s) (b ∷ t) h k = ground (arith, text_lt_total s t)

text_lt_trans : (s t u : Text) → text_lt s t ≡ true → text_lt t u ≡ true → text_lt s u ≡ true
unfolding text_lt
text_lt_trans s [] u h k = ground arith
text_lt_trans s (b ∷ t) [] h k = ground arith
text_lt_trans [] (b ∷ t) (c ∷ u) h k = refl
text_lt_trans (a ∷ s) (b ∷ t) (c ∷ u) h k = ground (arith, text_lt_trans s t u)

abbrev text_eq_refl : (s : Text) → text_eq s s ≡ true
text_eq_refl s = (text_eq_iff s s).1 refl

text_eq_sym : (s t : Text) → text_eq s t ≡ false → text_eq t s ≡ false
unfolding text_eq
text_eq_sym [] [] h = h
text_eq_sym [] (b ∷ t) h = refl
text_eq_sym (a ∷ s) [] h = refl
text_eq_sym (a ∷ s) (b ∷ t) h = ground (arith, text_eq_sym s t)

lt-text_eq : (s t : Text) → text_lt s t ≡ true → text_eq s t ≡ false
unfolding text_eq text_lt
lt-text_eq [] [] h = ground arith
lt-text_eq [] (b ∷ t) h = refl
lt-text_eq (a ∷ s) [] h = refl
lt-text_eq (a ∷ s) (b ∷ t) h = ground (arith, lt-text_eq s t)

module _ {ℓ} {V : Type ℓ} where
  pub find-assign : (k : Text) (v : V) (m : Map V) → find k (assign k v m) ≡ some v
  unfolding find assign
  find-assign k v [] = ground (arith, text_eq_refl k)
  find-assign k v ((k', w) ∷ m) = ground (arith, text_eq_refl k, find-assign k v m)

  pub find-assign_other :
      (j k : Text) (v : V) (m : Map V) → text_eq j k ≡ false → find j (assign k v m) ≡ find j m
  unfolding find assign
  find-assign_other j k v [] h = ground arith
  find-assign_other j k v ((k', w) ∷ m) h =
      ground (arith, find-assign_other j k v m, text_eq_iff k k')

  pub find-erase_other :
      (j k : Text) (m : Map V) → text_eq j k ≡ false → find j (erase k m) ≡ find j m
  unfolding find erase
  find-erase_other j k [] h = refl
  find-erase_other j k ((k', w) ∷ m) h = ground (arith, find-erase_other j k m, text_eq_iff k k')

  After-trans : (j k : Text) (m : Map V) → text_lt j k ≡ true → After k m → After j m
  After-trans j k [] h a = tt
  After-trans j k ((k', w) ∷ m) h (a, c) = (text_lt_trans j k k' h a, After-trans j k m h c)

  After-assign :
      (j k : Text) (v : V) (m : Map V) → text_lt j k ≡ true → After j m → After j (assign k v m)
  unfolding assign
  After-assign j k v [] h a = (h, tt)
  After-assign j k v ((k', w) ∷ m) h (a, c) =
      if-both (After j) (text_eq k k') (h, c)
        (if-both (After j) (text_lt k k') (h, (a, c)) (a, After-assign j k v m h c))

  pub assign-Rises : (k : Text) (v : V) (m : Map V) → Rises m → Rises (assign k v m)
  unfolding assign
  assign-Rises k v [] r = (tt, tt)
  assign-Rises k v ((k', w) ∷ m) (a, r) = elim (Bool-cases (text_eq k k')) [
    | inl h ↦ rw h (rw ((text_eq_iff k k').0 h) a, r)
    | inr h ↦ elim (Bool-cases (text_lt k k')) [
      | inl l ↦ rw (h, l) ((l, After-trans k k' m l a), (a, r))
      | inr l ↦ rw (h, l) (After-assign k' k v m (text_lt_total k k' h l) a, assign-Rises k v m r)
    ]
  ]
