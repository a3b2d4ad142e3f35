-- ===== src/Sandbox/Compiler/Correct.antt =====
-- `compile` of sandbox/compiler.hpp, and `run` of program.hpp on what it returns.
use mathlib.Core.Path.{ap₂, subst}
use robonode.Prelude.{
  ℕ, ◌≤◌, ◌≡◌, refl, sym, ap, ◌∙◌, List, [], ◌∷◌, map, Option, arith, length, length-map, All,
  is_empty, ◌==◌, ==_iff, Text,
}
use robonode.Core.Result.{Result, ok, Post, returns, raises, Post-bind, Post-ok, Post-guard}
use robonode.Core.Double.{Double}
use robonode.Sandbox.Program.{SandboxLimits, ByteCode, Program, VmError}
use robonode.Sandbox.Eval.{run_channels, run}
use robonode.Sandbox.Expr.{Expr, Closed, code_of, value_of}
use robonode.Sandbox.Expr.Depth.{depth-le-length}
use robonode.Sandbox.Machine.Safety.{
  IsResource, Evaluates, value, gave_up, eval_channel-code_of-Evaluates, eval_channel-code_of,
}
use robonode.Sandbox.Compiler.{parse_channel, parse_channels, compile, split, fuel_for}
use robonode.Sandbox.Compiler.Grammar.{skip_ws}
use robonode.Sandbox.Compiler.Emits.{HasFuel}
use robonode.Sandbox.Compiler.Sound.{expr-Parses}

module _ {ℓ} {W : Type ℓ} ⦃d : Double W⦄ (stod : Text → Option W) (names : List Text) where
  pub parse_channel-code_of :
      (seg : Text)
      → Post
          (λ (c : ByteCode W). (e : Expr W) × Closed (length names) e × (c ≡ code_of e))
          HasFuel
          (parse_channel stod names seg)
  unfolding parse_channel
  parse_channel-code_of seg =
      Post-bind
        (expr-Parses stod names (fuel_for seg) (record { rest = seg; code = [] }) (omega arith))
        λ p (e, c, eq, lt).
          Post-guard (is_empty (skip_ws p).rest) _ (λ x. cc) (λ _. returns (e, c, eq))

  parse_channels-code_of :
      (segs : List Text)
      → Post
          (λ (cs : List (ByteCode W)).
            (es : List (Expr W)) × All (Closed (length names)) es × (cs ≡ map code_of es))
          HasFuel
          (parse_channels stod names segs)
  unfolding parse_channels
  parse_channels-code_of [] = returns ([], tt, refl)
  parse_channels-code_of (seg ∷ segs) = Post-bind (parse_channel-code_of seg) λ c (e, k, eq).
      Post-bind (parse_channels-code_of segs)
        λ cs (es, ks, eqs). returns (e ∷ es, (k, ks), ap₂ ◌∷◌ eq eqs)

  -- What a program is the code of: as many expressions as there are channels, over the given inputs.
  abbrev pub IsCodeOf : Program W → List (Expr W) → ℕ → Type ℓ
  IsCodeOf prog es expected =
      (length es ≡ expected)
      × All (Closed (length names)) es
      × (prog.channels ≡ map code_of es)
      × (prog.input_count ≡ length names)

  -- Whatever the source text, `compile` either returns a program whose channels are the codes of
  -- expected_channels expressions over the inputs, or it fails with a message of the source: the
  -- fuel of the model always suffices.
  pub compile-IsCodeOf :
      (source : Text) (expected : ℕ)
      → Post
          (λ prog. (es : List (Expr W)) × IsCodeOf prog es expected)
          HasFuel
          (compile stod names source expected)
  unfolding compile
  compile-IsCodeOf source expected =
      Post-bind (parse_channels-code_of (split source)) λ cs (es, ks, eq).
        Post-guard (length cs == expected) _ (λ x. cc)
          (λ n. returns (
            es,
            (
              omega (arith, (==_iff _ expected).0 n, ap length eq, length-map es code_of),
              ks,
              eq,
              refl,
            ),
          ))

  -- `run` over the codes of expressions, under any limits.
  run_channels-value_of :
      (lim : SandboxLimits) (inputs : List W) (es : List (Expr W))
      → All (Closed (length inputs)) es
      → Post
          (λ out. out ≡ map (value_of inputs) es)
          IsResource
          (run_channels (map code_of es) inputs lim)
  unfolding run_channels
  run_channels-value_of lim inputs [] h = returns refl
  run_channels-value_of lim inputs (e ∷ es) (c, cs) =
      Post-bind (channel _ (eval_channel-code_of-Evaluates lim inputs e c)) λ v eq.
        Post-bind (run_channels-value_of lim inputs es cs) λ vs eqs. returns (ap₂ ◌∷◌ eq eqs)
    where
      channel :
          (r : Result VmError W)
          → Evaluates lim inputs (value_of inputs e) r
          → Post (λ v. v ≡ value_of inputs e) IsResource r
      channel _ value = returns refl
      channel _ (gave_up x h) = raises h

  -- The same, where the limits suffice.
  run_channels_within :
      (lim : SandboxLimits) (inputs : List W) (es : List (Expr W))
      → All (Closed (length inputs)) es
      → All
          (λ (c : ByteCode W). (length c ≤ lim.max_ops) × (length c ≤ lim.max_stack))
          (map code_of es)
      → run_channels (map code_of es) inputs lim ≡ ok (map (value_of inputs) es)
  unfolding run_channels
  run_channels_within lim inputs [] h k = refl
  run_channels_within lim inputs (e ∷ es) (c, cs) ((h, k), hs) = rw (
    eval_channel-code_of lim inputs e c h (omega (arith, depth-le-length e)),
    run_channels_within lim inputs es cs hs,
  )

  module _ (prog : Program W) (es : List (Expr W)) (expected : ℕ) (code : IsCodeOf prog es expected)
      (lim : SandboxLimits) (inputs : List W) (arity : length inputs ≡ length names) where
    run-run_channels : run prog inputs lim ≡ run_channels (map code_of es) inputs lim
    unfolding run
    run-run_channels =
        rw ((==_iff (length inputs) prog.input_count).1 (arity ∙ sym code.3))
          (ap (λ cs. run_channels cs inputs lim) code.2)

    given : All (Closed (length inputs)) es
    given = subst (λ n. All (Closed n) es) (sym arity) code.1

    run-value_of : Post (λ out. out ≡ map (value_of inputs) es) IsResource (run prog inputs lim)
    run-value_of = rw run-run_channels (run_channels-value_of lim inputs es given)

    run_within :
        All
          (λ (c : ByteCode W). (length c ≤ lim.max_ops) × (length c ≤ lim.max_stack))
          prog.channels
        → run prog inputs lim ≡ ok (map (value_of inputs) es)
    run_within fits =
        run-run_channels
        ∙ run_channels_within lim inputs es given (
            subst (All (λ (c : ByteCode W). (length c ≤ lim.max_ops) × (length c ≤ lim.max_stack)))
              code.2 fits)

  -- A program that `compile` returned is the code of expressions, one to a channel, and `run` on the
  -- right number of inputs returns their values, or fails by the op budget or the stack limit,
  -- whatever the limits. No other failure of the machine can occur.
  pub compile-run :
      (source : Text) (expected : ℕ) (prog : Program W)
      → compile stod names source expected ≡ ok prog
      → (lim : SandboxLimits) (inputs : List W) → length inputs ≡ length names
      → (es : List (Expr W)) × IsCodeOf prog es expected
        × Post (λ out. out ≡ map (value_of inputs) es) IsResource (run prog inputs lim)
  compile-run source expected prog h lim inputs arity =
      let (es, code) = Post-ok (rw h at (compile-IsCodeOf source expected)) in
      (es, code, run-value_of prog es expected code lim inputs arity)

  -- Where moreover the limits are at least the length of every channel, `run` does return the values
  -- of those expressions.
  compile-run_within :
      (source : Text) (expected : ℕ) (prog : Program W)
      → compile stod names source expected ≡ ok prog
      → (lim : SandboxLimits) (inputs : List W) → length inputs ≡ length names
      → All
          (λ (c : ByteCode W). (length c ≤ lim.max_ops) × (length c ≤ lim.max_stack))
          prog.channels
      → (es : List (Expr W)) × IsCodeOf prog es expected
        × (run prog inputs lim ≡ ok (map (value_of inputs) es))
  compile-run_within source expected prog h lim inputs arity fits =
      let (es, code) = Post-ok (rw h at (compile-IsCodeOf source expected)) in
      (es, code, run_within prog es expected code lim inputs arity fits)
