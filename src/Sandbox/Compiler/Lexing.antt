-- ===== src/Sandbox/Compiler/Lexing.antt =====
-- What the scanning helpers of sandbox/compiler.hpp leave of the text.
use robonode.Prelude.{
  ℕ, ◌+◌, ◌≤◌, ◌<◌, ◌≡◌, refl, ◌≢◌, ◌⊎◌, inl, inr, Bool, true, false, List, [], ◌∷◌, some, arith,
  length, Text,
}
use robonode.Sandbox.Program.{Op}
use robonode.Sandbox.Expr.{Binary, op₂}
use robonode.Sandbox.Compiler.Grammar.{
  first_char, drop_one, drop_spaces, span, number_char, name_char, digit, letter, other, lead_of,
  sum_op, product_op, index_of, call_op,
}

pub length-drop_spaces : (t : Text) → length (drop_spaces t) ≤ length t
unfolding drop_spaces
length-drop_spaces [] = omega arith
length-drop_spaces (ch ∷ t) = ground (arith, length-drop_spaces t)

pub length-drop_one : (t : Text) → first_char t ≢ 0 → length (drop_one t) < length t
length-drop_one [] h = absurd (h refl)
length-drop_one (ch ∷ t) h = omega arith

pub length-drop_one_le : (t : Text) → length (drop_one t) ≤ length t
length-drop_one_le [] = omega arith
length-drop_one_le (ch ∷ t) = omega arith

pub length-span : (test : ℕ → Bool) (t : Text) → length (span test t).1 ≤ length t
unfolding span
length-span test [] = omega arith
length-span test (ch ∷ t) = ground (arith, length-span test t)

pub length-span_first :
    (test : ℕ → Bool) (t : Text)
    → test (first_char t) ≡ true
    → test 0 ≡ false
    → length (span test t).1 < length t
unfolding span
length-span_first test [] h k = ground arith
length-span_first test (ch ∷ t) h k = ground (arith, length-span test t)

pub lead_of-digit : (ch : ℕ) → lead_of ch ≡ digit → number_char ch ≡ true
unfolding lead_of number_char
lead_of-digit ch h = ground arith

pub lead_of-letter : (ch : ℕ) → lead_of ch ≡ letter → name_char ch ≡ true
unfolding lead_of name_char
lead_of-letter ch h = ground arith

pub name_char-zero : name_char 0 ≡ false
unfolding name_char
name_char-zero = refl

pub lead_of-ne_zero : (ch : ℕ) → lead_of ch ≢ other → ch ≢ 0
unfolding lead_of
lead_of-ne_zero ch h e = ground arith

-- The operator is one of the tree's, and the text has not ended.
pub sum_op-cases : (ch : ℕ) (o : Op) → sum_op ch ≡ some o → (b : Binary) × (o ≡ op₂ b) × (ch ≢ 0)
unfolding sum_op
sum_op-cases ch Op.add h = (Binary.sum, refl, ground arith)
sum_op-cases ch Op.sub h = (Binary.difference, refl, ground arith)
sum_op-cases ch _ h = absurd (ground arith)

pub product_op-cases :
    (ch : ℕ) (o : Op) → product_op ch ≡ some o → (b : Binary) × (o ≡ op₂ b) × (ch ≢ 0)
unfolding product_op
product_op-cases ch Op.mul h = (Binary.product, refl, ground arith)
product_op-cases ch Op.div h = (Binary.quotient, refl, ground arith)
product_op-cases ch _ h = absurd (ground arith)

pub index_of-lt :
    (id : Text) (names : List Text) (k i : ℕ) → index_of id names k ≡ some i → i < k + length names
unfolding index_of
index_of-lt id [] k i h = ground arith
index_of-lt id (name ∷ names) k i h = ground (arith, index_of-lt id names (k + 1) i)

-- The calls: each instruction with the number of its arguments.
abbrev pub CallOp : Op → ℕ → Type 0
CallOp o argc =
    ((o ≡ Op.abs) × (argc ≡ 1))
    ⊎ (((b : Binary) × (o ≡ op₂ b) × (argc ≡ 2)) ⊎ ((o ≡ Op.clamp) × (argc ≡ 3)))

pub call_op-CallOp : (name : Text) (argc : ℕ) (o : Op) → call_op name argc ≡ some o → CallOp o argc
unfolding call_op
call_op-CallOp name argc Op.abs h = inl (refl, ground arith)
call_op-CallOp name argc Op.min h = inr (inl (Binary.least, refl, ground arith))
call_op-CallOp name argc Op.max h = inr (inl (Binary.greatest, refl, ground arith))
call_op-CallOp name argc Op.clamp h = inr (inr (refl, ground arith))
call_op-CallOp name argc _ h = absurd (ground arith)
