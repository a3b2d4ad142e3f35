-- ===== src/Sandbox/Wasm.antt =====
-- wasm_emit.hpp of engines/wasm: byte code lowered to the bytes of a WebAssembly module. A byte is a
-- number below 256; `bits` gives the eight bytes of a double.
pub mod Leb
pub mod Decode
pub mod RoundTrip
use robonode.Prelude.{
  ℕ, zero, suc, ◌+◌, ◌/◌, ◌%◌, ◌*◌, Bool, if◌then◌else◌, ◌==◌, List, [], ◌∷◌, ◌++◌, length, map,
  Text, bytes, decimal_digits,
}
use robonode.Sandbox.Program.{
  Op, push_const, load_input, add, sub, mul, div, neg, min, max, abs, clamp, Instr, ByteCode,
  Program,
}

-- `uleb`, of which the loop ends within `rounds` rounds; five are enough for 32 bits.
unfoldable pub uleb_from : ℕ → ℕ → List ℕ
uleb_from zero v = []
uleb_from (suc rounds) v =
    let rest = uleb_from rounds (v / 128) in
    if v / 128 == 0 then v % 128 ∷ [] else (v % 128 + 128) ∷ rest

unfoldable pub uleb : ℕ → List ℕ
unfolding uleb_from
uleb v = uleb_from 5 (v % 4294967296)

-- What `section` appends.
unfoldable pub section : ℕ → List ℕ → List ℕ
unfolding uleb
section id body = id ∷ uleb (length body) ++ body

module _ {ℓ} {W : Type ℓ} (bits : W → List ℕ) where
  unfoldable pub f64_const : W → List ℕ
  f64_const v = 68 ∷ bits v

  -- The `switch` of `emit_channel`.
  unfoldable pub emit_op : Op → Instr W → List ℕ
  unfolding f64_const uleb
  emit_op push_const ins = f64_const ins.value
  emit_op load_input ins = 32 ∷ uleb ins.input
  emit_op add ins = 160 ∷ []
  emit_op sub ins = 161 ∷ []
  emit_op mul ins = 162 ∷ []
  emit_op div ins = 163 ∷ []
  emit_op neg ins = 154 ∷ []
  emit_op abs ins = 153 ∷ []
  emit_op min ins = 164 ∷ []
  emit_op max ins = 165 ∷ []
  emit_op clamp ins =
      (33 ∷ uleb 4) ++ (33 ∷ uleb 3) ++ (32 ∷ uleb 3) ++ (165 ∷ []) ++ (32 ∷ uleb 4) ++ (164 ∷ [])

  unfoldable pub emit_channel : ByteCode W → List ℕ
  unfolding emit_op
  emit_channel [] = 11 ∷ []
  emit_channel (ins ∷ code) = emit_op ins.op ins ++ emit_channel code

  -- `body`, and what the loop over the channels appends to `codesec`.
  unfoldable pub emit_body : ByteCode W → List ℕ
  unfolding emit_channel
  emit_body code = 1 ∷ 2 ∷ 124 ∷ emit_channel code

  unfoldable pub emit_bodies : List (ByteCode W) → List ℕ
  unfolding emit_body uleb
  emit_bodies [] = []
  emit_bodies (code ∷ codes) = uleb (length (emit_body code)) ++ emit_body code ++ emit_bodies codes

-- The type of each of `n` functions, and its name and index from `k` on.
unfoldable pub emit_types : ℕ → List ℕ
unfolding uleb
emit_types zero = []
emit_types (suc n) = uleb 0 ++ emit_types n

unfoldable pub emit_exports : ℕ → ℕ → List ℕ
unfolding uleb decimal_digits
emit_exports zero k = []
emit_exports (suc n) k =
    let name = bytes "c" ++ decimal_digits 10 k in
    uleb (length name) ++ name ++ (0 ∷ []) ++ uleb k ++ emit_exports n (k + 1)

unfoldable pub emit {ℓ} : {W : Type ℓ} → (W → List ℕ) → Program W → List ℕ
unfolding section uleb emit_types emit_exports emit_bodies
emit bits prog =
    let n = length prog.channels in
    (0 ∷ 97 ∷ 115 ∷ 109 ∷ 1 ∷ 0 ∷ 0 ∷ 0 ∷ [])
    ++ section 1 (1 ∷ 96 ∷ 3 ∷ 124 ∷ 124 ∷ 124 ∷ 1 ∷ 124 ∷ [])
    ++ section 3 (uleb n ++ emit_types n)
    ++ section 7 (uleb n ++ emit_exports n 0)
    ++ section 10 (uleb n ++ emit_bodies bits prog.channels)
