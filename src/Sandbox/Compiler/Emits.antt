-- ===== src/Sandbox/Compiler/Emits.antt =====
-- What `number`, `identifier` and `call` of sandbox/compiler.hpp emit: the code of an expression.
use robonode.Prelude.{
  ℕ, ◌≤◌, ◌<◌, ◌≡◌, refl, ap, ◌∙◌, ◌≢◌, inl, inr, true, List, [], ◌∷◌, ◌++◌, Option, none, some,
  append_assoc, arith, length, All, ◌==◌, Text,
}
use robonode.Core.Result.{Post, returns, raises, Post-bind, Post-if}
use robonode.Core.Double.{Double}
use robonode.Sandbox.Program.{Op, ByteCode}
use robonode.Sandbox.Expr.{
  Expr, literal, variable, apply₁, apply₂, clamp, Unary, absolute_value, Binary, Closed, plain,
  load_variable, code_of, op₁, op₂,
}
use robonode.Sandbox.Compiler.Grammar.{
  CompileError, out_of_fuel, Parser, first_char, drop_spaces, number_char, index_of, call_op,
  skip_ws, close, emit_number, number, emit_variable, emit_call, finish_call,
}
use robonode.Sandbox.Compiler.Lexing.{
  length-drop_spaces, length-drop_one_le, length-span_first, index_of-lt, CallOp, call_op-CallOp,
}

abbrev pub HasFuel : CompileError → Type 0
HasFuel e = e ≢ out_of_fuel

module _ {ℓ} {W : Type ℓ} ⦃d : Double W⦄ (names : List Text) where
  -- The code is `base` and then that of an expression, and less than `size` characters are left.
  abbrev pub Grown : ByteCode W → ℕ → Parser W → Type ℓ
  Grown base size q =
      (e : Expr W) × Closed (length names) e × (q.code ≡ base ++ code_of e) × (length q.rest < size)

  -- The codes of a list of expressions, the last one first.
  unfoldable pub codes_rev : List (Expr W) → ByteCode W
  codes_rev [] = []
  codes_rev (e ∷ es) = codes_rev es ++ code_of e

  abbrev pub GrownArgs : ByteCode W → ℕ → ℕ × Parser W → Type ℓ
  GrownArgs base size r =
      (es : List (Expr W)) × All (Closed (length names)) es
      × (r.0 ≡ length es)
      × (r.1.code ≡ base ++ codes_rev es)
      × (length r.1.rest < size)

  pub emit₁ :
      (o : Unary) (e : Expr W) (c base : ByteCode W)
      → c ≡ base ++ code_of e
      → c ++ plain (op₁ o) ∷ [] ≡ base ++ code_of (apply₁ o e)
  unfolding code_of
  emit₁ o e c base h = rw h (append_assoc base _ _)

  pub emit₂ :
      (o : Binary) (e e' : Expr W) (c c' base : ByteCode W)
      → c ≡ base ++ code_of e
      → c' ≡ c ++ code_of e'
      → c' ++ plain (op₂ o) ∷ [] ≡ base ++ code_of (apply₂ o e e')
  unfolding code_of
  emit₂ o e e' c c' base h k = rw (k, h) (simp append_assoc)

  -- An argument list of each length that a call takes.
  tree₁ :
      (es : List (Expr W))
      → length es ≡ 1
      → All (Closed (length names)) es
      → (e : Expr W) × Closed (length names) e × (codes_rev es ++ plain Op.abs ∷ [] ≡ code_of e)
  unfolding codes_rev code_of
  tree₁ [] h c = absurd (omega arith)
  tree₁ (a ∷ []) h (c, _) = (apply₁ absolute_value a, c, refl)
  tree₁ (a ∷ b ∷ es) h c = absurd (omega arith)

  tree₂ :
      (o : Binary) (es : List (Expr W))
      → length es ≡ 2
      → All (Closed (length names)) es
      → (e : Expr W) × Closed (length names) e × (codes_rev es ++ plain (op₂ o) ∷ [] ≡ code_of e)
  unfolding codes_rev code_of
  tree₂ o [] h c = absurd (omega arith)
  tree₂ o (b ∷ []) h c = absurd (omega arith)
  tree₂ o (b ∷ a ∷ []) h (cb, (ca, _)) = (apply₂ o a b, (ca, cb), refl)
  tree₂ o (x ∷ b ∷ a ∷ es) h c = absurd (omega arith)

  tree₃ :
      (es : List (Expr W))
      → length es ≡ 3
      → All (Closed (length names)) es
      → (e : Expr W) × Closed (length names) e × (codes_rev es ++ plain Op.clamp ∷ [] ≡ code_of e)
  unfolding codes_rev code_of
  tree₃ [] h c = absurd (omega arith)
  tree₃ (hi ∷ []) h c = absurd (omega arith)
  tree₃ (hi ∷ lo ∷ []) h c = absurd (omega arith)
  tree₃ (hi ∷ lo ∷ x ∷ []) h (ch, (cl, (cx, _))) = (clamp x lo hi, (cx, cl, ch), refl)
  tree₃ (y ∷ hi ∷ lo ∷ x ∷ es) h c = absurd (omega arith)

  call_tree :
      (o : Op) (es : List (Expr W))
      → CallOp o (length es)
      → All (Closed (length names)) es
      → (e : Expr W) × Closed (length names) e × (codes_rev es ++ plain o ∷ [] ≡ code_of e)
  call_tree o es (inl (p, q)) c = rw p (tree₁ es q c)
  call_tree o es (inr (inl (b, p, q))) c = rw p (tree₂ b es q c)
  call_tree o es (inr (inr (p, q))) c = rw p (tree₃ es q c)

  emit_call-Grown :
      (name : Text) (argc : ℕ) (o : Option Op) (base : ByteCode W) (size : ℕ) (p : Parser W)
      → call_op name argc ≡ o
      → GrownArgs base size (argc, p)
      → Post (Grown base size) HasFuel (emit_call name o p)
  unfolding emit_call
  emit_call-Grown name argc none base size p h g = raises (λ e. cc)
  emit_call-Grown name argc (some o) base size p h (es, c, n, q, lt) =
      let (e, c', q') = call_tree o es (rw (← n) (call_op-CallOp name argc o h)) c in
      returns (e, c', rw q (append_assoc base _ _ ∙ ap (◌++◌ base) q'), lt)

  pub close_lem :
      (x : CompileError) (p : Parser W)
      → x ≢ out_of_fuel
      → Post
          (λ (q : Parser W). (q.code ≡ p.code) × (length q.rest ≤ length p.rest))
          HasFuel
          (close x (skip_ws p))
  unfolding close skip_ws
  close_lem x p h =
      Post-if (first_char (drop_spaces p.rest) == b')')
        (returns
          (refl, omega (arith, length-drop_one_le (drop_spaces p.rest), length-drop_spaces p.rest)))
        (raises h)

  emit_number-Grown :
      (o : Option W) (size : ℕ) (p : Parser W)
      → length p.rest < size
      → Post (Grown p.code size) HasFuel (emit_number o p)
  unfolding emit_number code_of
  emit_number-Grown none size p h = raises (λ e. cc)
  emit_number-Grown (some v) size p h = returns (literal v, tt, refl, h)

  pub number-Grown :
      (stod : Text → Option W) (p : Parser W)
      → number_char (first_char p.rest) ≡ true
      → Post (Grown p.code (length p.rest)) HasFuel (number stod p)
  unfolding number number_char
  number-Grown stod p h = emit_number-Grown _ _ _ (length-span_first number_char p.rest h refl)

  pub variable-Grown :
      (id : Text) (o : Option ℕ) (base : ByteCode W) (size : ℕ) (p : Parser W)
      → index_of id names 0 ≡ o
      → p.code ≡ base
      → length p.rest < size
      → Post (Grown base size) HasFuel (emit_variable id o p)
  unfolding emit_variable code_of
  variable-Grown id none base size p h q lt = raises (λ e. cc)
  variable-Grown id (some k) base size p h q lt = returns (
    variable k,
    omega (arith, index_of-lt id names 0 k h),
    ap (λ c. c ++ load_variable k ∷ []) q,
    lt,
  )

  pub finish_call-Grown :
      (name : Text) (argc : ℕ) (base : ByteCode W) (size : ℕ) (p : Parser W)
      → GrownArgs base size (argc, p)
      → Post (Grown base size) HasFuel (finish_call name argc p)
  unfolding finish_call
  finish_call-Grown name argc base size p (es, c, n, q, lt) =
      Post-bind (close_lem _ p (λ e. cc))
        λ r (q', le). emit_call-Grown name argc _ base size r refl (es, c, n, q' ∙ q, omega arith)
