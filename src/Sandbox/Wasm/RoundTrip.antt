-- ===== src/Sandbox/Wasm/RoundTrip.antt =====
-- Emitted code read back.
use robonode.Prelude.{
  ℕ, zero, suc, ◌+◌, ◌<◌, ◌≡◌, refl, ap, ◌∙◌, sym, true, false, ◌==◌, Option, some, List, [], ◌∷◌,
  ◌++◌, append_assoc, append-nil, arith, length, length-append, map, All, All-append,
}
use robonode.Sandbox.Program.{
  Op, push_const, load_input, add, sub, mul, div, neg, min, max, abs, clamp, Instr, ByteCode,
}
use robonode.Sandbox.Wasm.{uleb, f64_const, emit_op, emit_channel, emit_body, emit_bodies}
use robonode.Sandbox.Wasm.Leb.{read-uleb}
use robonode.Sandbox.Wasm.Decode.{
  WasmInstr, const, local_get, local_set, numeric, lower, lower_all, IsWord, reads, read_code,
  sized, read_locals, of_size, read_body, with_others, read_bodies,
}

module _ {ℓ} {W : Type ℓ} where
  abbrev Readable : WasmInstr W → Type 0
  Readable (const v) = Unit
  Readable (local_get i) = i < 4294967296
  Readable (local_set i) = i < 4294967296
  Readable (numeric b) = 100 < b

  lower-Readable : (op : Op) (ins : Instr W) → IsWord ins → All Readable (lower op ins)
  lower-Readable push_const ins h = (tt, tt)
  lower-Readable load_input ins h = (h, tt)
  lower-Readable add ins h = (omega arith, tt)
  lower-Readable sub ins h = (omega arith, tt)
  lower-Readable mul ins h = (omega arith, tt)
  lower-Readable div ins h = (omega arith, tt)
  lower-Readable neg ins h = (omega arith, tt)
  lower-Readable abs ins h = (omega arith, tt)
  lower-Readable min ins h = (omega arith, tt)
  lower-Readable max ins h = (omega arith, tt)
  lower-Readable clamp ins h =
      (omega arith, (omega arith, (omega arith, (omega arith, (omega arith, (omega arith, tt))))))

  lower_all-Readable : (code : ByteCode W) → All IsWord code → All Readable (lower_all code)
  lower_all-Readable [] h = tt
  lower_all-Readable (ins ∷ code) (h, hs) =
      All-append Readable (lower ins.op ins) (lower_all code) (lower-Readable ins.op ins h)
        (lower_all-Readable code hs)

module _ {ℓ} {W : Type ℓ} (bits : W → List ℕ) (of_bits : List ℕ → Option (W × List ℕ))
    (read-bits : (v : W) (rest : List ℕ) → of_bits (bits v ++ rest) ≡ some (v, rest)) where
  abbrev encode : WasmInstr W → List ℕ
  encode (const v) = 68 ∷ bits v
  encode (local_get i) = 32 ∷ uleb i
  encode (local_set i) = 33 ∷ uleb i
  encode (numeric b) = b ∷ []

  abbrev encode_all : List (WasmInstr W) → List ℕ
  encode_all [] = []
  encode_all (i ∷ is) = encode i ++ encode_all is

  read-encode :
      (n : ℕ) (i : WasmInstr W) (bs rest : List ℕ) (is : List (WasmInstr W))
      → Readable i
      → read_code of_bits n bs ≡ some (is, rest)
      → read_code of_bits (suc n) (encode i ++ bs) ≡ some (i ∷ is, rest)
  read-encode n (const v) bs rest is h e = rw (read-bits v bs, e) refl
  read-encode n (local_get i) bs rest is h e = rw (read-uleb i bs h, e) refl
  read-encode n (local_set i) bs rest is h e = rw (read-uleb i bs h, e) refl
  read-encode n (numeric b) bs rest is h e =
      let e1 : (b == 11) ≡ false = ground arith in
      let e2 : (b == 68) ≡ false = ground arith in
      let e3 : (b == 32) ≡ false = ground arith in
      let e4 : (b == 33) ≡ false = ground arith in rw (e1, e2, e3, e4, e) refl

  read-encode_all :
      (n : ℕ) (is : List (WasmInstr W)) (rest : List ℕ)
      → All Readable is
      → length is < n
      → read_code of_bits n (encode_all is ++ 11 ∷ rest) ≡ some (is, rest)
  read-encode_all zero is rest h k = absurd (omega (arith, k))
  read-encode_all (suc n) [] rest h k = refl
  read-encode_all (suc n) (i ∷ is) rest (h, hs) k =
      rw (append_assoc (encode i) (encode_all is) (11 ∷ rest)) (
        read-encode n i (encode_all is ++ 11 ∷ rest) rest is h
          (read-encode_all n is rest hs (omega (arith, k))))

  emit_op-encode : (op : Op) (ins : Instr W) → emit_op bits op ins ≡ encode_all (lower op ins)
  unfolding emit_op f64_const
  emit_op-encode push_const ins = ap (◌∷◌ 68) (sym (append-nil (bits ins.value)))
  emit_op-encode load_input ins = ap (◌∷◌ 32) (sym (append-nil (uleb ins.input)))
  emit_op-encode add ins = refl
  emit_op-encode sub ins = refl
  emit_op-encode mul ins = refl
  emit_op-encode div ins = refl
  emit_op-encode neg ins = refl
  emit_op-encode abs ins = refl
  emit_op-encode min ins = refl
  emit_op-encode max ins = refl
  emit_op-encode clamp ins = refl

  encode_all-append :
      (is js : List (WasmInstr W)) → encode_all (is ++ js) ≡ encode_all is ++ encode_all js
  encode_all-append [] js = refl
  encode_all-append (i ∷ is) js =
      ap (λ bs. encode i ++ bs) (encode_all-append is js)
      ∙ sym (append_assoc (encode i) (encode_all is) (encode_all js))

  emit_channel-encode :
      (code : ByteCode W) → emit_channel bits code ≡ encode_all (lower_all code) ++ 11 ∷ []
  unfolding emit_channel
  emit_channel-encode [] = refl
  emit_channel-encode (ins ∷ code) =
      rw
        (
          emit_op-encode ins.op ins,
          emit_channel-encode code,
          encode_all-append (lower ins.op ins) (lower_all code),
        )
        (sym (append_assoc (encode_all (lower ins.op ins)) (encode_all (lower_all code)) (11 ∷ [])))

  -- Code read back.
  pub read-emit_channel :
      (n : ℕ) (code : ByteCode W) (rest : List ℕ)
      → All IsWord code
      → length (lower_all code) < n
      → read_code of_bits n (emit_channel bits code ++ rest) ≡ some (lower_all code, rest)
  read-emit_channel n code rest h k =
      rw (emit_channel-encode code, append_assoc (encode_all (lower_all code)) (11 ∷ []) rest)
        (read-encode_all n (lower_all code) rest (lower_all-Readable code h) k)

  -- A body fits if its size is a word, and its instructions are fewer than the fuel.
  abbrev pub Fits : ℕ → ByteCode W → Type 0
  Fits n code =
      All IsWord code × (length (lower_all code) < n) × (length (emit_body bits code) < 4294967296)

  sized-some :
      (size : ℕ) (bs rest : List ℕ) (is : List (WasmInstr W))
      → size + length rest ≡ 3 + length bs
      → sized of_bits size bs (some (is, rest)) ≡ some (is, rest)
  sized-some size bs rest is e =
      let whole : (size + length rest == 3 + length bs) ≡ true = ground (arith, e) in rw whole refl

  length-emit_body :
      (code : ByteCode W) (rest : List ℕ)
      → length (emit_body bits code) + length rest ≡ 3 + length (emit_channel bits code ++ rest)
  unfolding emit_body
  length-emit_body code rest = omega (arith, length-append (emit_channel bits code) rest)

  locals-emit_body :
      (n size : ℕ) (code : ByteCode W) (rest : List ℕ)
      → read_locals of_bits n size (emit_body bits code ++ rest)
        ≡ sized of_bits size
            (emit_channel bits code ++ rest)
            (read_code of_bits n (emit_channel bits code ++ rest))
  unfolding emit_body
  locals-emit_body n size code rest = refl

  read-emit_body :
      (n : ℕ) (code : ByteCode W) (rest : List ℕ)
      → Fits n code
      → read_body of_bits n (uleb (length (emit_body bits code)) ++ (emit_body bits code ++ rest))
        ≡ some (lower_all code, rest)
  read-emit_body n code rest (h, k, size) =
      ap (of_size of_bits n)
        (read-uleb (length (emit_body bits code)) (emit_body bits code ++ rest) size)
      ∙ locals-emit_body n (length (emit_body bits code)) code rest
      ∙ ap (sized of_bits (length (emit_body bits code)) (emit_channel bits code ++ rest))
          (read-emit_channel n code rest h k)
      ∙ sized-some (length (emit_body bits code)) (emit_channel bits code ++ rest) rest
          (lower_all code) (length-emit_body code rest)

  emit_bodies-cons :
      (code : ByteCode W) (codes : List (ByteCode W)) (rest : List ℕ)
      → emit_bodies bits (code ∷ codes) ++ rest
        ≡ uleb (length (emit_body bits code))
          ++ (emit_body bits code ++ (emit_bodies bits codes ++ rest))
  unfolding emit_bodies
  emit_bodies-cons code codes rest =
      let size = uleb (length (emit_body bits code)) in
      append_assoc (size ++ emit_body bits code) (emit_bodies bits codes) rest
      ∙ append_assoc size (emit_body bits code) (emit_bodies bits codes ++ rest)

  -- The bodies of a code section are read back as what the channels stand for, and what follows them
  -- is left: if the bytes of a double give it back, and each body fits.
  pub read-emit_bodies :
      (n : ℕ) (codes : List (ByteCode W)) (rest : List ℕ)
      → All (Fits n) codes
      → read_bodies of_bits n (length codes) (emit_bodies bits codes ++ rest)
        ≡ some (map lower_all codes, rest)
  unfolding emit_bodies
  read-emit_bodies n [] rest h = refl
  read-emit_bodies n (code ∷ codes) rest (h, hs) =
      ap (read_bodies of_bits n (suc (length codes))) (emit_bodies-cons code codes rest)
      ∙ ap (λ x. with_others of_bits x (read_bodies of_bits n (length codes)))
          (read-emit_body n code (emit_bodies bits codes ++ rest) h)
      ∙ ap (reads (λ iss. lower_all code ∷ iss)) (read-emit_bodies n codes rest hs)
