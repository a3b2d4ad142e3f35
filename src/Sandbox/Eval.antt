-- ===== src/Sandbox/Eval.antt =====
-- sandbox/program.hpp: `eval_channel` and `run`. The stack `st` is a list, its back first.
use robonode.Prelude.{
  ℕ, ◌+◌, Option, none, some, List, [], ◌∷◌, ltb, ◌==◌, not, if◌then◌else◌, length, get_elem?,
}
use robonode.Core.Result.{Result, ok, err, ◌>>=◌, ◌>>◌, guard}
use robonode.Core.Double.{Double, nought}
use robonode.Sandbox.Program.{
  SandboxLimits, Op, push_const, load_input, add, sub, mul, div, neg, min, max, abs, clamp, Instr,
  ByteCode, Program, VmError, op_budget_exceeded, stack_overflow, input_out_of_range,
  stack_underflow, not_one_value, input_arity_mismatch,
}

module _ {ℓ} {W : Type ℓ} ⦃d : Double W⦄ where
  -- `a < 0 ? -a : a`, the case of `Op::Abs`
  unfoldable pub absolute : W → W
  absolute a = if d.lt a nought then d.neg a else a

  -- `a < b ? a : b`, the case of `Op::Min`
  unfoldable pub minimum : W → W → W
  minimum a b = if d.lt a b then a else b

  -- `a > b ? a : b`, the default case of the inner switch
  unfoldable pub maximum : W → W → W
  maximum a b = if d.lt b a then a else b

  -- `x < lo ? lo : (x > hi ? hi : x)`, the case of `Op::Clamp`
  unfoldable pub clamped : W → W → W → W
  clamped x lo hi = if d.lt x lo then lo else if d.lt hi x then hi else x

  module _ (lim : SandboxLimits) where
    -- The closure `push`, with the error that both of its callers return.
    unfoldable pub push : W → List W → Result VmError (List W)
    push v st = if ltb (length st) lim.max_stack then ok (v ∷ st) else err stack_overflow

    -- `push(in[ins.input])` behind its bounds check
    unfoldable pub load : Option W → List W → Result VmError (List W)
    load none st = err input_out_of_range
    load (some v) st = push v st

  unfoldable pub unary : (W → W) → List W → Result VmError (List W)
  unary f [] = err stack_underflow
  unary f (a ∷ st) = ok (f a ∷ st)

  unfoldable pub binary : (W → W → W) → List W → Result VmError (List W)
  binary f [] = err stack_underflow
  binary f (b ∷ []) = err stack_underflow
  binary f (b ∷ a ∷ st) = ok (f a b ∷ st)

  unfoldable pub ternary : (W → W → W → W) → List W → Result VmError (List W)
  ternary f [] = err stack_underflow
  ternary f (hi ∷ []) = err stack_underflow
  ternary f (hi ∷ lo ∷ []) = err stack_underflow
  ternary f (hi ∷ lo ∷ x ∷ st) = ok (f x lo hi ∷ st)

  -- The `switch` on `ins.op`.
  unfoldable pub dispatch : SandboxLimits → List W → Op → Instr W → List W → Result VmError (List W)
  unfolding push load unary binary ternary absolute minimum maximum clamped
  dispatch lim inputs push_const ins st = push lim ins.value st
  dispatch lim inputs load_input ins st = load lim (get_elem? inputs ins.input) st
  dispatch lim inputs neg ins st = unary d.neg st
  dispatch lim inputs abs ins st = unary absolute st
  dispatch lim inputs add ins st = binary d.add st
  dispatch lim inputs sub ins st = binary d.sub st
  dispatch lim inputs mul ins st = binary d.mul st
  dispatch lim inputs div ins st = binary d.div st
  dispatch lim inputs min ins st = binary minimum st
  dispatch lim inputs max ins st = binary maximum st
  dispatch lim inputs clamp ins st = ternary clamped st

  -- One round of the loop, `ops` instructions into the code.
  unfoldable pub tick : SandboxLimits → List W → Instr W → ℕ → List W → Result VmError (List W)
  unfolding dispatch
  tick lim inputs ins ops st =
      guard (not (ltb lim.max_ops (ops + 1))) op_budget_exceeded
      >> dispatch lim inputs ins.op ins st

  -- The loop over the code.
  unfoldable pub exec : SandboxLimits → List W → ByteCode W → ℕ → List W → Result VmError (List W)
  exec lim inputs [] ops st = ok st
  exec lim inputs (ins ∷ code) ops st =
      tick lim inputs ins ops st >>= exec lim inputs code (ops + 1)

  -- `if (st.size() != 1) …; out = st.back();`
  unfoldable pub finish : List W → Result VmError W
  finish [] = err not_one_value
  finish (v ∷ []) = ok v
  finish (v ∷ w ∷ st) = err not_one_value

  unfoldable pub eval_channel : ByteCode W → List W → SandboxLimits → Result VmError W
  unfolding exec tick finish
  eval_channel code inputs lim = exec lim inputs code 0 [] >>= finish

  -- The loop of `run` over the channels.
  unfoldable pub run_channels : List (ByteCode W) → List W → SandboxLimits → Result VmError (List W)
  unfolding eval_channel
  run_channels [] inputs lim = ok []
  run_channels (c ∷ cs) inputs lim = do
    v ← eval_channel c inputs lim
    vs ← run_channels cs inputs lim
    ok (v ∷ vs)

  unfoldable pub run : Program W → List W → SandboxLimits → Result VmError (List W)
  unfolding run_channels
  run p inputs lim = do
    guard (length inputs == p.input_count) input_arity_mismatch
    run_channels p.channels inputs lim
