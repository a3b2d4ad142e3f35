-- ===== src/Sandbox/WasmTests.antt =====
-- The bytes of a small program, and the round trip at it. A double is one byte here.
use robonode.Prelude.{ℕ, ◌≡◌, refl, Option, none, some, List, [], ◌∷◌, ◌++◌, length, arith}
use robonode.Sandbox.Program.{push_const, load_input, mul, ByteCode}
use robonode.Sandbox.Wasm.{uleb, emit, emit_body, emit_bodies}
use robonode.Sandbox.Wasm.Decode.{lower_all, read_bodies}
use robonode.Sandbox.Wasm.RoundTrip.{read-emit_bodies}

abbrev bits : ℕ → List ℕ
bits v = v ∷ []

abbrev of_bits : List ℕ → Option (ℕ × List ℕ)
of_bits [] = none
of_bits (b ∷ bs) = some (b, bs)

abbrev doubled : ByteCode ℕ
doubled =
    record { op = load_input; value = 0; input = 0 }
    ∷ record { op = push_const; value = 2; input = 0 }
    ∷ record { op = mul; value = 0; input = 0 }
    ∷ []

two_bytes : uleb 300 ≡ 172 ∷ 2 ∷ []
unfolding uleb
two_bytes = refl

-- The size of the module: its header, and four sections.
module_size : length (emit bits (record { channels = doubled ∷ []; input_count = 1 })) ≡ 43
unfolding emit
module_size = refl

read-emit_bodies_example :
    read_bodies of_bits 4 1 (emit_bodies bits (doubled ∷ []) ++ 7 ∷ [])
    ≡ some (lower_all doubled ∷ [], 7 ∷ [])
unfolding emit_body
read-emit_bodies_example =
    read-emit_bodies bits of_bits (λ v rest. refl) 4 (doubled ∷ []) (7 ∷ [])
      (((omega arith, (omega arith, (omega arith, tt))), omega arith, omega arith), tt)
