-- ===== src/Sandbox/Compiler/Sound.antt =====
-- The parser of sandbox/compiler.hpp emits the code of an expression, and its fuel suffices: each
-- call goes down by one, and a cycle of nine calls takes a character at least.
use robonode.Prelude.{
  ℕ, zero, suc, ◌+◌, ◌*◌, ◌≤◌, ◌<◌, ◌≡◌, refl, sym, ap, ◌∙◌, ◌≢◌, Bool, true, false, List, [], ◌∷◌,
  ◌++◌, Option, none, some, append_assoc, append-nil, arith, length, All, ◌==◌, Text,
}
use robonode.Core.Result.{Result, Post, returns, raises, Post-bind, Post-weaken}
use robonode.Core.Double.{Double}
use robonode.Sandbox.Program.{Op, ByteCode}
use robonode.Sandbox.Expr.{Expr, apply₁, apply₂, negation, Closed, plain, code_of}
use robonode.Sandbox.Compiler.Grammar.{
  CompileError, missing_paren, Parser, span, name_char, Lead, paren, minus, digit, letter, other,
  lead_of, sum_op, product_op, skip_ws, peek, advance, emit, expr, expr_rest, expr_next, term,
  term_rest, term_next, factor, factor_at, identifier, identifier_next, call, call_args, args,
  args_next,
}
use robonode.Sandbox.Compiler.Lexing.{
  length-drop_spaces, name_char-zero, length-drop_one, length-span_first, lead_of-digit,
  lead_of-letter, lead_of-ne_zero, sum_op-cases, product_op-cases,
}
use robonode.Sandbox.Compiler.Emits.{
  HasFuel, Grown, codes_rev, GrownArgs, emit₁, emit₂, close_lem, number-Grown, variable-Grown,
  finish_call-Grown,
}

module _ {ℓ} {W : Type ℓ} ⦃d : Double W⦄ (stod : Text → Option W) (names : List Text) where
  abbrev pub Parses : ByteCode W → ℕ → Result CompileError (Parser W) → Type ℓ
  Parses base size r = Post (Grown names base size) HasFuel r

  mutual
    unfolding expr skip_ws codes_rev

    pub expr-Parses :
        (f : ℕ) (p : Parser W)
        → 9 * length p.rest + 6 < f
        → Parses p.code (length p.rest) (expr stod names f p)
    expr-Parses zero p h = absurd (omega arith)
    expr-Parses (suc f) p h =
        Post-bind (term-Parses f p (omega arith))
          λ q (e, c, eq, lt). expr_rest-Parses f q p.code (length p.rest) e c eq lt (omega arith)

    expr_rest-Parses :
        (f : ℕ) (p : Parser W) (base : ByteCode W) (size : ℕ) (e : Expr W)
        → Closed (length names) e
        → p.code ≡ base ++ code_of e
        → length p.rest < size
        → 9 * length p.rest + 1 < f
        → Parses base size (expr_rest stod names f p)
    expr_rest-Parses zero p base size e c eq lt h = absurd (omega arith)
    expr_rest-Parses (suc f) p base size e c eq lt h =
        let le = length-drop_spaces p.rest in
        expr_next-Parses f (sum_op (peek (skip_ws p))) (skip_ws p) base size e refl c eq
          (omega (arith, le)) (omega (arith, le))

    expr_next-Parses :
        (f : ℕ) (o : Option Op) (p : Parser W) (base : ByteCode W) (size : ℕ) (e : Expr W)
        → sum_op (peek p) ≡ o
        → Closed (length names) e
        → p.code ≡ base ++ code_of e
        → length p.rest < size
        → 9 * length p.rest < f
        → Parses base size (expr_next stod names f o p)
    expr_next-Parses zero o p base size e is c eq lt h = absurd (omega arith)
    expr_next-Parses (suc f) none p base size e is c eq lt h = returns (e, c, eq, lt)
    expr_next-Parses (suc f) (some o) p base size e is c eq lt h =
        let (b, is_b, more) = sum_op-cases (peek p) o is in
        let le = length-drop_one p.rest more in
        Post-bind (term-Parses f (advance p) (omega (arith, le))) λ q (e', c', eq', lt').
          expr_rest-Parses f (emit (plain o) q) base size (apply₂ b e e') (c, c')
            (ap (λ x. q.code ++ plain x ∷ []) is_b ∙ emit₂ names b e e' p.code q.code base eq eq')
            (omega (arith, le)) (omega (arith, le))

    term-Parses :
        (f : ℕ) (p : Parser W)
        → 9 * length p.rest + 5 < f
        → Parses p.code (length p.rest) (term stod names f p)
    term-Parses zero p h = absurd (omega arith)
    term-Parses (suc f) p h =
        Post-bind (factor-Parses f p (omega arith))
          λ q (e, c, eq, lt). term_rest-Parses f q p.code (length p.rest) e c eq lt (omega arith)

    term_rest-Parses :
        (f : ℕ) (p : Parser W) (base : ByteCode W) (size : ℕ) (e : Expr W)
        → Closed (length names) e
        → p.code ≡ base ++ code_of e
        → length p.rest < size
        → 9 * length p.rest + 1 < f
        → Parses base size (term_rest stod names f p)
    term_rest-Parses zero p base size e c eq lt h = absurd (omega arith)
    term_rest-Parses (suc f) p base size e c eq lt h =
        let le = length-drop_spaces p.rest in
        term_next-Parses f (product_op (peek (skip_ws p))) (skip_ws p) base size e refl c eq
          (omega (arith, le)) (omega (arith, le))

    term_next-Parses :
        (f : ℕ) (o : Option Op) (p : Parser W) (base : ByteCode W) (size : ℕ) (e : Expr W)
        → product_op (peek p) ≡ o
        → Closed (length names) e
        → p.code ≡ base ++ code_of e
        → length p.rest < size
        → 9 * length p.rest < f
        → Parses base size (term_next stod names f o p)
    term_next-Parses zero o p base size e is c eq lt h = absurd (omega arith)
    term_next-Parses (suc f) none p base size e is c eq lt h = returns (e, c, eq, lt)
    term_next-Parses (suc f) (some o) p base size e is c eq lt h =
        let (b, is_b, more) = product_op-cases (peek p) o is in
        let le = length-drop_one p.rest more in
        Post-bind (factor-Parses f (advance p) (omega (arith, le))) λ q (e', c', eq', lt').
          term_rest-Parses f (emit (plain o) q) base size (apply₂ b e e') (c, c')
            (ap (λ x. q.code ++ plain x ∷ []) is_b ∙ emit₂ names b e e' p.code q.code base eq eq')
            (omega (arith, le)) (omega (arith, le))

    factor-Parses :
        (f : ℕ) (p : Parser W)
        → 9 * length p.rest + 4 < f
        → Parses p.code (length p.rest) (factor stod names f p)
    factor-Parses zero p h = absurd (omega arith)
    factor-Parses (suc f) p h =
        let le = length-drop_spaces p.rest in
        factor_at-Parses f (lead_of (peek (skip_ws p))) (skip_ws p) (length p.rest) refl le
          (omega (arith, le))

    factor_at-Parses :
        (f : ℕ) (l : Lead) (p : Parser W) (size : ℕ)
        → lead_of (peek p) ≡ l
        → length p.rest ≤ size
        → 9 * length p.rest + 3 < f
        → Parses p.code size (factor_at stod names f l p)
    factor_at-Parses zero l p size is le h = absurd (omega arith)
    factor_at-Parses (suc f) paren p size is le h =
        let lt = length-drop_one p.rest (lead_of-ne_zero (peek p) (λ e. cc)) in
        Post-bind (expr-Parses f (advance p) (omega (arith, lt))) λ q (e, c, eq, lt').
          Post-weaken (close_lem names missing_paren q (λ x. cc))
            λ r (eq', le'). (e, c, eq' ∙ eq, omega (arith, lt))
    factor_at-Parses (suc f) minus p size is le h =
        let lt = length-drop_one p.rest (lead_of-ne_zero (peek p) (λ e. cc)) in
        Post-bind (factor-Parses f (advance p) (omega (arith, lt))) λ q (e, c, eq, lt').
          returns (apply₁ negation e, c, emit₁ names negation e q.code p.code eq, omega (arith, lt))
    factor_at-Parses (suc f) digit p size is le h =
        Post-weaken (number-Grown names stod p (lead_of-digit (peek p) is))
          λ q (e, c, eq, lt). (e, c, eq, omega arith)
    factor_at-Parses (suc f) letter p size is le h =
        Post-weaken (identifier-Parses f p (lead_of-letter (peek p) is) (omega arith))
          λ q (e, c, eq, lt). (e, c, eq, omega arith)
    factor_at-Parses (suc f) other p size is le h = raises (λ e. cc)

    identifier-Parses :
        (f : ℕ) (p : Parser W)
        → name_char (peek p) ≡ true
        → 9 * length p.rest + 2 < f
        → Parses p.code (length p.rest) (identifier stod names f p)
    identifier-Parses zero p is h = absurd (omega arith)
    identifier-Parses (suc f) p is h =
        let after = (span name_char p.rest).1 in
        let lt = length-span_first name_char p.rest is name_char-zero in
        let le = length-drop_spaces after in
        identifier_next-Parses f (span name_char p.rest).0 _ (skip_ws (record p { rest = after }))
          (length p.rest) refl (omega (arith, lt, le)) (omega (arith, lt, le))

    identifier_next-Parses :
        (f : ℕ) (id : Text) (b : Bool) (p : Parser W) (size : ℕ)
        → (peek p == b'(') ≡ b
        → length p.rest < size
        → 9 * length p.rest + 1 < f
        → Parses p.code size (identifier_next stod names f id b p)
    identifier_next-Parses zero id b p size is lt h = absurd (omega arith)
    identifier_next-Parses (suc f) id true p size is lt h =
        call-Parses f id p size (λ e. ground arith) lt (omega arith)
    identifier_next-Parses (suc f) id false p size is lt h =
        variable-Grown names id _ p.code size p refl refl lt

    call-Parses :
        (f : ℕ) (name : Text) (p : Parser W) (size : ℕ)
        → peek p ≢ 0
        → length p.rest < size
        → 9 * length p.rest < f
        → Parses p.code size (call stod names f name p)
    call-Parses zero name p size more lt h = absurd (omega arith)
    call-Parses (suc f) name p size more lt h =
        let lt' = length-drop_one p.rest more in
        call_args-Parses f name _ (advance p) size (omega (arith, lt')) (omega (arith, lt'))

    call_args-Parses :
        (f : ℕ) (name : Text) (b : Bool) (p : Parser W) (size : ℕ)
        → length p.rest < size
        → 9 * length p.rest + 8 < f
        → Parses p.code size (call_args stod names f name b p)
    call_args-Parses zero name b p size lt h = absurd (omega arith)
    call_args-Parses (suc f) name true p size lt h =
        finish_call-Grown names name 0 p.code size p ([], tt, refl, sym (append-nil p.code), lt)
    call_args-Parses (suc f) name false p size lt h =
        Post-bind
          (args-Parses f 0 p p.code size [] tt refl (sym (append-nil p.code)) (omega arith)
            (omega arith))
          λ r g. finish_call-Grown names name r.0 p.code size r.1 g

    args-Parses :
        (f argc : ℕ) (p : Parser W) (base : ByteCode W) (size : ℕ) (es : List (Expr W))
        → All (Closed (length names)) es
        → argc ≡ length es
        → p.code ≡ base ++ codes_rev names es
        → length p.rest ≤ size
        → 9 * length p.rest + 7 < f
        → Post (GrownArgs names base size) HasFuel (args stod names f argc p)
    args-Parses zero argc p base size es cs n eq le h = absurd (omega arith)
    args-Parses (suc f) argc p base size es cs n eq le h =
        Post-bind (expr-Parses f p (omega arith)) λ q (e, c, eq', lt).
          let le' = length-drop_spaces q.rest in
          args_next-Parses f (argc + 1) _ (skip_ws q) base size (e ∷ es) refl (c, cs) (omega arith)
            (rw (eq', eq) (append_assoc base _ _)) (omega (arith, le')) (omega (arith, le'))

    args_next-Parses :
        (f argc : ℕ) (b : Bool) (p : Parser W) (base : ByteCode W) (size : ℕ) (es : List (Expr W))
        → (peek p == b',') ≡ b
        → All (Closed (length names)) es
        → argc ≡ length es
        → p.code ≡ base ++ codes_rev names es
        → length p.rest < size
        → 9 * length p.rest < f
        → Post (GrownArgs names base size) HasFuel (args_next stod names f argc b p)
    args_next-Parses zero argc b p base size es is cs n eq lt h = absurd (omega arith)
    args_next-Parses (suc f) argc true p base size es is cs n eq lt h =
        let lt' = length-drop_one p.rest (λ e. ground arith) in
        args-Parses f argc (advance p) base size es cs n eq (omega (arith, lt'))
          (omega (arith, lt'))
    args_next-Parses (suc f) argc false p base size es is cs n eq lt h = returns (es, cs, n, eq, lt)
