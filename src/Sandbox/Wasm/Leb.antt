-- ===== src/Sandbox/Wasm/Leb.antt =====
-- LEB128, the numbers of a WebAssembly module, as a reader of its bytes finds them.
use robonode.Prelude.{
  ℕ, zero, suc, ◌+◌, ◌-◌, ◌*◌, ◌/◌, ◌%◌, ◌<◌, ◌≡◌, refl, ap, ◌∙◌, true, false, Bool-cases, inl, inr,
  if◌then◌else◌, ◌==◌, ltb, Option, none, some, List, [], ◌∷◌, ◌++◌, arith,
}
use robonode.Sandbox.Wasm.{uleb_from, uleb}

-- The number that the bytes go on with, and what follows it.
abbrev pub carry : ℕ → Option (ℕ × List ℕ) → Option (ℕ × List ℕ)
carry b none = none
carry b (some (v, rest)) = some (b - 128 + 128 * v, rest)

abbrev pub read_uleb : ℕ → List ℕ → Option (ℕ × List ℕ)
read_uleb zero bs = none
read_uleb (suc rounds) [] = none
read_uleb (suc rounds) (b ∷ bs) =
    let more = read_uleb rounds bs in if ltb b 128 then some (b, bs) else carry b more

-- The numbers of one group of seven bits more than that are below it.
abbrev pub capacity : ℕ → ℕ
capacity zero = 128
capacity (suc n) = 128 * capacity n

read-last : (n b : ℕ) (rest : List ℕ) → b < 128 → read_uleb (suc n) (b ∷ rest) ≡ some (b, rest)
read-last n b rest h = ground arith

read-more :
    (n b v : ℕ) (bs rest : List ℕ)
    → read_uleb n bs ≡ some (v, rest)
    → read_uleb (suc n) ((b + 128) ∷ bs) ≡ some (b + 128 * v, rest)
read-more n b v bs rest h =
    let big : ltb (b + 128) 128 ≡ false = ground arith in
    let less : b + 128 - 128 ≡ b = omega arith in rw (big, h, less) refl

uleb_from-last : (n v : ℕ) → (v / 128 == 0) ≡ true → uleb_from (suc n) v ≡ v ∷ []
unfolding uleb_from
uleb_from-last n v e = let same : v % 128 ≡ v = ground arith in rw (e, same) refl

uleb_from-more :
    (n v : ℕ)
    → (v / 128 == 0) ≡ false
    → uleb_from (suc n) v ≡ (v % 128 + 128) ∷ uleb_from n (v / 128)
unfolding uleb_from
uleb_from-more n v e = rw e refl

pub read-uleb_from :
    (n v : ℕ) (rest : List ℕ)
    → v < capacity n
    → read_uleb (suc n) (uleb_from (suc n) v ++ rest) ≡ some (v, rest)
read-uleb_from zero v rest h =
    let e : (v / 128 == 0) ≡ true = ground arith in
    rw (uleb_from-last 0 v e) (read-last 0 v rest (omega (arith, h)))
read-uleb_from (suc n) v rest h = elim (Bool-cases (v / 128 == 0)) [
  | inl e ↦ rw (uleb_from-last (suc n) v e) (read-last (suc n) v rest (ground arith))
  | inr e ↦
      let below : v / 128 < capacity n = omega (arith, h) in
      let whole : v % 128 + 128 * (v / 128) ≡ v = omega arith in
      let step : read_uleb (suc (suc n)) ((v % 128 + 128) ∷ uleb_from (suc n) (v / 128) ++ rest)
          ≡ some (v, rest) =
        read-more (suc n) (v % 128) (v / 128) (uleb_from (suc n) (v / 128) ++ rest) rest
          (read-uleb_from n (v / 128) rest below)
        ∙ ap (λ u. some (u, rest)) whole in
      rw (uleb_from-more (suc n) v e) step
]

-- A number of 32 bits is read back from `uleb`.
pub read-uleb :
    (v : ℕ) (rest : List ℕ) → v < 4294967296 → read_uleb 5 (uleb v ++ rest) ≡ some (v, rest)
unfolding uleb
read-uleb v rest h =
    let same : v % 4294967296 ≡ v = omega (arith, h) in
    rw same (read-uleb_from 4 v rest (omega (arith, h)))
