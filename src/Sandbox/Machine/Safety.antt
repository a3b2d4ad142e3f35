-- ===== src/Sandbox/Machine/Safety.antt =====
-- The machine of program.hpp under limits that may be too small for an expression's code.
use robonode.Prelude.{
  ℕ, ◌+◌, ◌≤◌, ◌≡◌, refl, ◌∙◌, ◌⊎◌, inl, inr, List, [], ◌∷◌, ◌++◌, length, append_assoc, append-nil,
  arith,
}
use native.Mathlib.Decide.{dec_le}
use robonode.Core.Result.{Result, ok, err}
use robonode.Core.Double.{Double}
use robonode.Sandbox.Program.{
  SandboxLimits, Instr, ByteCode, VmError, op_budget_exceeded, stack_overflow,
}
use robonode.Sandbox.Eval.{push, dispatch, tick, exec, eval_channel}
use robonode.Sandbox.Expr.{
  Expr, literal, variable, apply₁, apply₂, clamp, Closed, depth, push_literal, load_variable,
  code_of, value_of,
}
use robonode.Sandbox.Machine.{
  Goes, Stops, Goes-append, Goes-one, dispatch₁, dispatch₂, dispatch-clamp, dispatch_literal,
  dispatch_variable, code_of-Goes,
}

-- The two ways in which the machine gives up on code that is well formed.
abbrev pub IsResource : VmError → Type 0
IsResource op_budget_exceeded = Unit
IsResource stack_overflow = Unit
IsResource _ = ⊥

module _ {ℓ} {W : Type ℓ} ⦃d : Double W⦄ (lim : SandboxLimits) (inputs : List W) where
  abbrev Ends : ByteCode W → ℕ → List W → List W → Type ℓ
  Ends code ops st st' =
      Goes lim inputs code ops st st'
      ⊎ ((e : VmError) × IsResource e × Stops lim inputs code ops st e)

  Ends-append :
      (c₁ c₂ : ByteCode W) (ops : ℕ) (st st₁ st₂ : List W)
      → Ends c₁ ops st st₁
      → Ends c₂ (ops + length c₁) st₁ st₂
      → Ends (c₁ ++ c₂) ops st st₂
  Ends-append c₁ c₂ ops st st₁ st₂ (inl p) (inl q) =
      inl (Goes-append lim inputs c₁ c₂ ops st st₁ st₂ p q)
  Ends-append c₁ c₂ ops st st₁ st₂ (inl p) (inr (e, r, q)) =
      inr (e, r, λ rest. rw append_assoc (p (c₂ ++ rest) ∙ q rest))
  Ends-append c₁ c₂ ops st st₁ st₂ (inr (e, r, p)) q =
      inr (e, r, λ rest. rw append_assoc (p (c₂ ++ rest)))

  over_budget :
      (ins : Instr W) (ops : ℕ) (st : List W)
      → ¬ (ops + 1 ≤ lim.max_ops)
      → Stops lim inputs (ins ∷ []) ops st op_budget_exceeded
  unfolding exec tick
  over_budget ins ops st h rest = ground arith

  Stops-dispatch :
      (ins : Instr W) (ops : ℕ) (st : List W) (e : VmError)
      → ops + 1 ≤ lim.max_ops
      → dispatch lim inputs ins.op ins st ≡ err e
      → Stops lim inputs (ins ∷ []) ops st e
  unfolding exec tick
  Stops-dispatch ins ops st e h p rest = ground arith

  Ends-one :
      (ins : Instr W) (ops : ℕ) (st st' : List W)
      → dispatch lim inputs ins.op ins st ≡ ok st'
      → Ends (ins ∷ []) ops st st'
  Ends-one ins ops st st' p = elim (dec_le (ops + 1) lim.max_ops) [
    | yes h ↦ inl (Goes-one lim inputs ins ops st st' h p)
    | no h ↦ inr (op_budget_exceeded, tt, over_budget ins ops st h)
  ]

  push_cases :
      (v : W) (st : List W) → (push lim v st ≡ ok (v ∷ st)) ⊎ (push lim v st ≡ err stack_overflow)
  unfolding push
  push_cases v st = ground arith

  Ends-push :
      (ins : Instr W) (v : W) (ops : ℕ) (st : List W)
      → dispatch lim inputs ins.op ins st ≡ push lim v st
      → Ends (ins ∷ []) ops st (v ∷ st)
  Ends-push ins v ops st p = elim (push_cases v st) [
    | inl q ↦ Ends-one ins ops st _ (p ∙ q)
    | inr q ↦ elim (dec_le (ops + 1) lim.max_ops) [
      | yes h ↦ inr (stack_overflow, tt, Stops-dispatch ins ops st _ h (p ∙ q))
      | no h ↦ inr (op_budget_exceeded, tt, over_budget ins ops st h)
    ]
  ]

  code_of-Ends :
      (e : Expr W) (ops : ℕ) (st : List W)
      → Closed (length inputs) e
      → Ends (code_of e) ops st (value_of inputs e ∷ st)
  unfolding code_of value_of
  code_of-Ends (literal w) ops st c =
      Ends-push (push_literal w) w ops st (dispatch_literal lim inputs w st)
  code_of-Ends (variable k) ops st c =
      Ends-push (load_variable k) _ ops st (dispatch_variable lim inputs k st c)
  code_of-Ends (apply₁ o a) ops st c =
      Ends-append (code_of a) _ ops st _ _ (code_of-Ends a ops st c)
        (Ends-one _ _ _ _ (dispatch₁ lim inputs o _ st))
  code_of-Ends (apply₂ o a b) ops st (ca, cb) =
      Ends-append (code_of a ++ code_of b) _ ops st _ _
        (Ends-append (code_of a) (code_of b) ops st _ _ (code_of-Ends a ops st ca)
          (code_of-Ends b _ _ cb))
        (Ends-one _ _ _ _ (dispatch₂ lim inputs o _ _ st))
  code_of-Ends (clamp x lo hi) ops st (cx, cl, ch) =
      Ends-append (code_of x ++ code_of lo ++ code_of hi) _ ops st _ _
        (Ends-append (code_of x ++ code_of lo) (code_of hi) ops st _ _
          (Ends-append (code_of x) (code_of lo) ops st _ _ (code_of-Ends x ops st cx)
            (code_of-Ends lo _ _ cl))
          (code_of-Ends hi _ _ ch))
        (Ends-one _ _ _ _ (dispatch-clamp lim inputs _ _ _ st))

  -- The value, or one of the two resource errors.
  pub data Evaluates (v : W) : Result VmError W → Type ℓ where
    value : Evaluates v (ok v)
    gave_up : (e : VmError) → IsResource e → Evaluates v (err e)

  -- On the code of an expression whose inputs are given, and under any limits, `eval_channel`
  -- returns the value of the expression, or it fails by the op budget or the stack limit. It never
  -- underflows, never reads an input out of range and never ends with a stack of another size.
  pub eval_channel-code_of-Evaluates :
      (e : Expr W)
      → Closed (length inputs) e
      → Evaluates (value_of inputs e) (eval_channel (code_of e) inputs lim)
  unfolding eval_channel
  eval_channel-code_of-Evaluates e c = elim (code_of-Ends e 0 [] c) [
    | inl p ↦ rw (rw append-nil at (p [])) value
    | inr (x, r, p) ↦ rw (rw append-nil at (p [])) (gave_up x r)
  ]

  -- Within the limits, `eval_channel` returns the value of the expression: the code is no longer
  -- than the op budget, and the depth of the expression is within the stack limit.
  pub eval_channel-code_of :
      (e : Expr W)
      → Closed (length inputs) e
      → length (code_of e) ≤ lim.max_ops
      → depth e ≤ lim.max_stack
      → eval_channel (code_of e) inputs lim ≡ ok (value_of inputs e)
  unfolding eval_channel
  eval_channel-code_of e c h k =
      rw (rw append-nil at (code_of-Goes lim inputs e 0 [] c (omega arith) (omega arith) [])) refl
