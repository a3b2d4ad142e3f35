-- ===== src/Sandbox/Expr.antt =====
-- The language that the compiler of sandbox/compiler.hpp accepts, as trees: their values, and their
-- code in postfix order. The machine and the compiler are proved against these.
pub mod Depth
use Prim.Native.Nat.{max}
use robonode.Prelude.{
  ℕ, zero, suc, ◌+◌, ◌<◌, ◌≡◌, refl, Option, none, some, List, [], ◌∷◌, ◌++◌, get_elem?, length,
  arith,
}
use robonode.Core.Double.{Double, nought}
use robonode.Sandbox.Program.{Op, Instr, ByteCode, push_const, load_input}
use robonode.Sandbox.Eval.{absolute, minimum, maximum, clamped}

pub data Unary : Type 0 where
  negation absolute_value : Unary

pub data Binary : Type 0 where
  sum difference product quotient least greatest : Binary

pub data Expr {ℓ} (W : Type ℓ) : Type ℓ where
  literal : W → Expr W
  variable : ℕ → Expr W
  apply₁ : Unary → Expr W → Expr W
  apply₂ : Binary → Expr W → Expr W → Expr W
  clamp : Expr W → Expr W → Expr W → Expr W

abbrev pub op₁ : Unary → Op
op₁ negation = Op.neg
op₁ absolute_value = Op.abs

abbrev pub op₂ : Binary → Op
op₂ sum = Op.add
op₂ difference = Op.sub
op₂ product = Op.mul
op₂ quotient = Op.div
op₂ least = Op.min
op₂ greatest = Op.max

-- Every input that the expression names is given.
abbrev pub Closed {ℓ} : {W : Type ℓ} → ℕ → Expr W → Type 0
Closed n (literal w) = Unit
Closed n (variable k) = k < n
Closed n (apply₁ o a) = Closed n a
Closed n (apply₂ o a b) = Closed n a × Closed n b
Closed n (clamp x lo hi) = Closed n x × Closed n lo × Closed n hi

-- The stack that the code needs.
unfoldable pub depth {ℓ} : {W : Type ℓ} → Expr W → ℕ
depth (literal w) = 1
depth (variable k) = 1
depth (apply₁ o a) = depth a
depth (apply₂ o a b) = max (depth a) (1 + depth b)
depth (clamp x lo hi) = max (depth x) (max (1 + depth lo) (2 + depth hi))

module _ {ℓ} {W : Type ℓ} ⦃d : Double W⦄ where
  -- An instruction with no operand.
  abbrev pub plain : Op → Instr W
  plain o = record { op = o; value = nought; input = 0 }

  -- `{Op::PushConst, v}` and `{Op::LoadInput, 0.0, k}`
  abbrev pub push_literal : W → Instr W
  push_literal v = record { op = push_const; value = v; input = 0 }

  abbrev pub load_variable : ℕ → Instr W
  load_variable k = record { op = load_input; value = nought; input = k }

  unfoldable pub code_of : Expr W → ByteCode W
  code_of (literal w) = push_literal w ∷ []
  code_of (variable k) = load_variable k ∷ []
  code_of (apply₁ o a) = code_of a ++ plain (op₁ o) ∷ []
  code_of (apply₂ o a b) = code_of a ++ code_of b ++ plain (op₂ o) ∷ []
  code_of (clamp x lo hi) = code_of x ++ code_of lo ++ code_of hi ++ plain Op.clamp ∷ []

  abbrev pub fun₁ : Unary → W → W
  fun₁ negation = d.neg
  fun₁ absolute_value = absolute

  abbrev pub fun₂ : Binary → W → W → W
  fun₂ sum = d.add
  fun₂ difference = d.sub
  fun₂ product = d.mul
  fun₂ quotient = d.div
  fun₂ least = minimum
  fun₂ greatest = maximum

  abbrev or_nought : Option W → W
  or_nought none = nought
  or_nought (some v) = v

  -- The value of an expression. (An input that is not given counts as 0.)
  unfoldable pub value_of : List W → Expr W → W
  value_of inputs (literal w) = w
  value_of inputs (variable k) = or_nought (get_elem? inputs k)
  value_of inputs (apply₁ o a) = fun₁ o (value_of inputs a)
  value_of inputs (apply₂ o a b) = fun₂ o (value_of inputs a) (value_of inputs b)
  value_of inputs (clamp x lo hi) =
      clamped (value_of inputs x) (value_of inputs lo) (value_of inputs hi)

  pub get_elem?-value :
      (inputs : List W) (k : ℕ)
      → k < length inputs
      → get_elem? inputs k ≡ some (value_of inputs (variable k))
  unfolding value_of
  get_elem?-value [] k h = elim h [ ]
  get_elem?-value (x ∷ xs) zero h = refl
  get_elem?-value (x ∷ xs) (suc k) h = get_elem?-value xs k (omega arith)
