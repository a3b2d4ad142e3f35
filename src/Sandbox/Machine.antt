-- ===== src/Sandbox/Machine.antt =====
-- The machine of program.hpp on the code of an expression.
pub mod Safety
use native.Mathlib.Nat.{add_assoc}
use robonode.Prelude.{
  ℕ, ◌+◌, ◌≤◌, ◌≡◌, refl, ◌∙◌, ◌<◌, List, [], ◌∷◌, ◌++◌, length, length-append, append_assoc, arith,
}
use robonode.Core.Result.{ok, err}
use robonode.Core.Double.{Double}
use robonode.Sandbox.Program.{push_const, load_input, SandboxLimits, Op, Instr, ByteCode, VmError}
use robonode.Sandbox.Eval.{push, load, unary, binary, ternary, dispatch, tick, exec, clamped}
use robonode.Sandbox.Expr.{
  Expr, literal, variable, apply₁, apply₂, clamp, Unary, negation, absolute_value, Binary, sum,
  difference, product, quotient, least, greatest, Closed, depth, plain, push_literal, load_variable,
  code_of, fun₁, fun₂, op₁, op₂, value_of, get_elem?-value,
}

module _ {ℓ} {W : Type ℓ} ⦃d : Double W⦄ (lim : SandboxLimits) (inputs : List W) where
  -- `code` takes the stack from `st` to `st'`, whatever code follows it.
  abbrev pub Goes : ByteCode W → ℕ → List W → List W → Type ℓ
  Goes code ops st st' =
      (rest : ByteCode W)
      → exec lim inputs (code ++ rest) ops st ≡ exec lim inputs rest (ops + length code) st'

  -- `code` stops with `e`, whatever code follows it.
  abbrev pub Stops : ByteCode W → ℕ → List W → VmError → Type ℓ
  Stops code ops st e = (rest : ByteCode W) → exec lim inputs (code ++ rest) ops st ≡ err e

  pub Goes-append :
      (c₁ c₂ : ByteCode W) (ops : ℕ) (st st₁ st₂ : List W)
      → Goes c₁ ops st st₁
      → Goes c₂ (ops + length c₁) st₁ st₂
      → Goes (c₁ ++ c₂) ops st st₂
  Goes-append c₁ c₂ ops st st₁ st₂ p q rest =
      rw (append_assoc, length-append c₁ c₂, ← add_assoc) (p (c₂ ++ rest) ∙ q rest)

  pub Goes-one :
      (ins : Instr W) (ops : ℕ) (st st' : List W)
      → ops + 1 ≤ lim.max_ops
      → dispatch lim inputs ins.op ins st ≡ ok st'
      → Goes (ins ∷ []) ops st st'
  unfolding exec tick
  Goes-one ins ops st st' h e rest = ground arith

  push_fits : (v : W) (st : List W) → length st + 1 ≤ lim.max_stack → push lim v st ≡ ok (v ∷ st)
  unfolding push
  push_fits v st h = ground arith

  pub dispatch₁ :
      (o : Unary) (a : W) (st : List W)
      → dispatch lim inputs (op₁ o) (plain (op₁ o)) (a ∷ st) ≡ ok (fun₁ o a ∷ st)
  unfolding dispatch unary
  dispatch₁ negation a st = refl
  dispatch₁ absolute_value a st = refl

  pub dispatch₂ :
      (o : Binary) (a b : W) (st : List W)
      → dispatch lim inputs (op₂ o) (plain (op₂ o)) (b ∷ a ∷ st) ≡ ok (fun₂ o a b ∷ st)
  unfolding dispatch binary
  dispatch₂ sum a b st = refl
  dispatch₂ difference a b st = refl
  dispatch₂ product a b st = refl
  dispatch₂ quotient a b st = refl
  dispatch₂ least a b st = refl
  dispatch₂ greatest a b st = refl

  pub dispatch-clamp :
      (x lo hi : W) (st : List W)
      → dispatch lim inputs Op.clamp (plain Op.clamp) (hi ∷ lo ∷ x ∷ st) ≡ ok (clamped x lo hi ∷ st)
  unfolding dispatch ternary
  dispatch-clamp x lo hi st = refl

  pub dispatch_literal :
      (v : W) (st : List W) → dispatch lim inputs push_const (push_literal v) st ≡ push lim v st
  unfolding dispatch
  dispatch_literal v st = refl

  pub dispatch_variable :
      (k : ℕ) (st : List W)
      → k < length inputs
      → dispatch lim inputs load_input (load_variable k) st
        ≡ push lim (value_of inputs (variable k)) st
  unfolding dispatch load
  dispatch_variable k st h = rw (get_elem?-value inputs k h)

  -- Within the limits, the code of an expression pushes its value.
  pub code_of-Goes :
      (e : Expr W) (ops : ℕ) (st : List W)
      → Closed (length inputs) e
      → ops + length (code_of e) ≤ lim.max_ops
      → length st + depth e ≤ lim.max_stack
      → Goes (code_of e) ops st (value_of inputs e ∷ st)
  unfolding code_of depth value_of
  code_of-Goes (literal w) ops st c h k =
      Goes-one (push_literal w) ops st _ h (dispatch_literal w st ∙ push_fits w st k)
  code_of-Goes (variable i) ops st c h k =
      Goes-one (load_variable i) ops st _ h (dispatch_variable i st c ∙ push_fits _ st k)
  code_of-Goes (apply₁ o a) ops st c h k =
      let fits = length-append (code_of a) (plain (op₁ o) ∷ []) in
      Goes-append (code_of a) _ ops st _ _ (code_of-Goes a ops st c (omega (arith, fits)) k)
        (Goes-one _ _ _ _ (omega (arith, fits)) (dispatch₁ o _ st))
  code_of-Goes (apply₂ o a b) ops st (ca, cb) h k =
      let fits = length-append (code_of a ++ code_of b) (plain (op₂ o) ∷ []) in
      let pair = length-append (code_of a) (code_of b) in
      Goes-append (code_of a ++ code_of b) _ ops st _ _
        (Goes-append (code_of a) (code_of b) ops st _ _
          (code_of-Goes a ops st ca (omega (arith, fits, pair)) (omega arith))
          (code_of-Goes b _ _ cb (omega (arith, fits, pair)) (omega arith)))
        (Goes-one _ _ _ _ (omega (arith, fits)) (dispatch₂ o _ _ st))
  code_of-Goes (clamp x lo hi) ops st (cx, cl, ch) h k =
      let fits = length-append (code_of x ++ code_of lo ++ code_of hi) (plain Op.clamp ∷ []) in
      let three = length-append (code_of x ++ code_of lo) (code_of hi) in
      let pair = length-append (code_of x) (code_of lo) in
      Goes-append (code_of x ++ code_of lo ++ code_of hi) _ ops st _ _
        (Goes-append (code_of x ++ code_of lo) (code_of hi) ops st _ _
          (Goes-append (code_of x) (code_of lo) ops st _ _
            (code_of-Goes x ops st cx (omega (arith, fits, three, pair)) (omega arith))
            (code_of-Goes lo _ _ cl (omega (arith, fits, three, pair)) (omega arith)))
          (code_of-Goes hi _ _ ch (omega (arith, fits, three, pair)) (omega arith)))
        (Goes-one _ _ _ _ (omega (arith, fits)) (dispatch-clamp _ _ _ st))
