-- ===== src/Sandbox/Wasm/Decode.antt =====
-- The bytes of emitted code, as a reader of WebAssembly finds them.
use robonode.Prelude.{
  ℕ, zero, suc, ◌+◌, ◌<◌, if◌then◌else◌, ◌==◌, ◌&&◌, Option, none, some, List, [], ◌∷◌, ◌++◌,
  length,
}
use robonode.Sandbox.Program.{
  Op, push_const, load_input, add, sub, mul, div, neg, min, max, abs, clamp, Instr, ByteCode,
}
use robonode.Sandbox.Wasm.Leb.{read_uleb}

-- An instruction of the machine: `numeric` has its operation code.
pub data WasmInstr {ℓ} (W : Type ℓ) : Type ℓ where
  const : W → WasmInstr W
  local_get local_set numeric : ℕ → WasmInstr W

module _ {ℓ} {W : Type ℓ} where
  -- What the code stands for.
  abbrev pub lower : Op → Instr W → List (WasmInstr W)
  lower push_const ins = const ins.value ∷ []
  lower load_input ins = local_get ins.input ∷ []
  lower add ins = numeric 160 ∷ []
  lower sub ins = numeric 161 ∷ []
  lower mul ins = numeric 162 ∷ []
  lower div ins = numeric 163 ∷ []
  lower neg ins = numeric 154 ∷ []
  lower abs ins = numeric 153 ∷ []
  lower min ins = numeric 164 ∷ []
  lower max ins = numeric 165 ∷ []
  lower clamp ins =
      local_set 4 ∷ local_set 3 ∷ local_get 3 ∷ numeric 165 ∷ local_get 4 ∷ numeric 164 ∷ []

  abbrev pub lower_all : ByteCode W → List (WasmInstr W)
  lower_all [] = []
  lower_all (ins ∷ code) = lower ins.op ins ++ lower_all code

  -- The `uint32_t` of the code are such.
  abbrev pub IsWord : Instr W → Type 0
  IsWord ins = ins.input < 4294967296

-- The index of a local, or a constant, as an instruction.
abbrev pub reads {ℓ κ} :
    {A : Type ℓ} {B : Type κ} → (A → B) → Option (A × List ℕ) → Option (B × List ℕ)
reads f none = none
reads f (some (a, rest)) = some (f a, rest)

module _ {ℓ} {W : Type ℓ} (of_bits : List ℕ → Option (W × List ℕ)) where
  abbrev pub read_one : ℕ → List ℕ → Option (WasmInstr W × List ℕ)
  read_one b bs =
      if b == 68
      then reads const (of_bits bs)
      else if b == 32
      then reads local_get (read_uleb 5 bs)
      else if b == 33
      then reads local_set (read_uleb 5 bs)
      else some (numeric b, bs)

  -- The instructions up to the end of a function, of which there are fewer than the fuel.
  abbrev pub read_code : ℕ → List ℕ → Option (List (WasmInstr W) × List ℕ)
  read_code zero bs = none
  read_code (suc n) [] = none
  read_code (suc n) (b ∷ bs) = if b == 11 then some ([], bs) else elim (read_one b bs) [
    | none ↦ none
    | some (i, rest) ↦ reads (λ is. i ∷ is) (read_code n rest)
  ]

  -- The code of a body of that size, of which the bytes before it leave `rest`.
  abbrev pub sized :
      ℕ → List ℕ → Option (List (WasmInstr W) × List ℕ) → Option (List (WasmInstr W) × List ℕ)
  sized size rest none = none
  sized size rest (some (is, rest')) =
      if size + length rest' == 3 + length rest then some (is, rest') else none

  abbrev pub read_locals : ℕ → ℕ → List ℕ → Option (List (WasmInstr W) × List ℕ)
  read_locals fuel size (groups ∷ count ∷ type ∷ rest) =
      if groups == 1 && count == 2 && type == 124
      then sized size rest (read_code fuel rest)
      else none
  read_locals fuel size _ = none

  abbrev pub of_size : ℕ → Option (ℕ × List ℕ) → Option (List (WasmInstr W) × List ℕ)
  of_size fuel none = none
  of_size fuel (some (size, rest)) = read_locals fuel size rest

  -- A body: its size, the two locals for the clamps, and its code.
  abbrev pub read_body : ℕ → List ℕ → Option (List (WasmInstr W) × List ℕ)
  read_body fuel bs = of_size fuel (read_uleb 5 bs)

  abbrev pub with_others :
      Option (List (WasmInstr W) × List ℕ)
      → (List ℕ → Option (List (List (WasmInstr W)) × List ℕ))
      → Option (List (List (WasmInstr W)) × List ℕ)
  with_others none others = none
  with_others (some (is, rest)) others = reads (λ iss. is ∷ iss) (others rest)

  abbrev pub read_bodies : ℕ → ℕ → List ℕ → Option (List (List (WasmInstr W)) × List ℕ)
  read_bodies fuel zero bs = some ([], bs)
  read_bodies fuel (suc n) bs = with_others (read_body fuel bs) (read_bodies fuel n)
