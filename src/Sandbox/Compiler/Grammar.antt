-- ===== src/Sandbox/Compiler/Grammar.antt =====
-- sandbox/compiler.hpp: the parser. Its position `i_` is the text that is left. The functions call
-- one another in a cycle, so each takes fuel; `Sandbox.Compiler.Sound` shows how much is enough. A
-- loop is a function of its own (`…_rest`), and what follows its test another (`…_next`).
use robonode.Prelude.{
  ℕ, zero, suc, ◌+◌, ◌||◌, ◌&&◌, Bool, true, false, List, [], ◌∷◌, ◌++◌, Option, none, some, ◌==◌,
  if◌then◌else◌, Text, bytes, text_eq,
}
use robonode.Core.Result.{Result, ok, err, ◌>>=◌}
use robonode.Core.Double.{Double}
use robonode.Sandbox.Chars.{isspace, isdigit, isalpha, isalnum}
use robonode.Sandbox.Program.{Op, Instr, ByteCode}
use robonode.Sandbox.Expr.{plain, push_literal, load_variable}

-- The messages of the compiler. `out_of_fuel` is the model's own.
pub data CompileError : Type 0 where
  missing_paren missing_paren_in_call unexpected_character bad_number trailing_tokens : CompileError
  unknown_identifier unknown_function : Text → CompileError
  wrong_channel_count : ℕ → ℕ → CompileError
  out_of_fuel : CompileError

-- `s_` from `i_` on, and `*code_`.
pub record Parser {ℓ} (W : Type ℓ) : Type ℓ where
  pub rest : Text
  pub code : ByteCode W

-- The character that is next, 0 at the end.
abbrev pub first_char : Text → ℕ
first_char [] = 0
first_char (ch ∷ t) = ch

abbrev pub drop_one : Text → Text
drop_one [] = []
drop_one (ch ∷ t) = t

unfoldable pub drop_spaces : Text → Text
unfolding isspace
drop_spaces [] = []
drop_spaces (ch ∷ t) = let later = drop_spaces t in if isspace ch then later else ch ∷ t

-- The longest prefix of characters that pass a test, and what is behind it.
unfoldable pub span : (ℕ → Bool) → Text → Text × Text
span test [] = ([], [])
span test (ch ∷ t) =
    let later = span test t in if test ch then (ch ∷ later.0, later.1) else ([], ch ∷ t)

unfoldable pub number_char : ℕ → Bool
unfolding isdigit
number_char c = isdigit c || c == b'.'

unfoldable pub name_char : ℕ → Bool
unfolding isalnum
name_char c = isalnum c || c == b'_'

-- The branches of `factor` by the next character, in the order of its tests.
pub data Lead : Type 0 where
  paren minus digit letter other : Lead

unfoldable pub lead_of : ℕ → Lead
unfolding isdigit isalpha
lead_of ch =
    if ch == b'('
    then paren
    else if ch == b'-'
    then minus
    else if isdigit ch || ch == b'.'
    then digit
    else if isalpha ch || ch == b'_'
    then letter
    else other

-- `op == '+' ? Op::Add : Op::Sub`, `none` where `expr` returns
unfoldable pub sum_op : ℕ → Option Op
sum_op ch = if ch == b'+' then some Op.add else if ch == b'-' then some Op.sub else none

-- `op == '*' ? Op::Mul : Op::Div`, `none` where `term` returns
unfoldable pub product_op : ℕ → Option Op
product_op ch = if ch == b'*' then some Op.mul else if ch == b'/' then some Op.div else none

-- The search for `id` in `names_`, from the index `k`.
unfoldable pub index_of : Text → List Text → ℕ → Option ℕ
unfolding text_eq
index_of id [] k = none
index_of id (name ∷ names) k = if text_eq id name then some k else index_of id names (k + 1)

-- The instruction of a call, by its name and the number of its arguments.
unfoldable pub call_op : Text → ℕ → Option Op
unfolding text_eq
call_op name argc =
    if text_eq name (bytes "min") && argc == 2
    then some Op.min
    else if text_eq name (bytes "max") && argc == 2
    then some Op.max
    else if text_eq name (bytes "abs") && argc == 1
    then some Op.abs
    else if text_eq name (bytes "clamp") && argc == 3
    then some Op.clamp
    else none

module _ {ℓ} {W : Type ℓ} where
  unfoldable pub skip_ws : Parser W → Parser W
  unfolding drop_spaces
  skip_ws p = record p { rest = drop_spaces p.rest }

  abbrev pub peek : Parser W → ℕ
  peek p = first_char p.rest

  -- `++i_`
  abbrev pub advance : Parser W → Parser W
  advance p = record p { rest = drop_one p.rest }

  abbrev pub emit : Instr W → Parser W → Parser W
  emit ins p = record p { code = p.code ++ ins ∷ [] }

  -- `if (peek() != ')') return failure; ++i_;`
  unfoldable pub close : CompileError → Parser W → Result CompileError (Parser W)
  close e p = if peek p == b')' then ok (advance p) else err e

module _ {ℓ} {W : Type ℓ} ⦃d : Double W⦄ where
  -- The `try` block of `number`, on the result of `std::stod`.
  unfoldable pub emit_number : Option W → Parser W → Result CompileError (Parser W)
  emit_number none p = err bad_number
  emit_number (some v) p = ok (emit (push_literal v) p)

  unfoldable pub number : (Text → Option W) → Parser W → Result CompileError (Parser W)
  unfolding span number_char emit_number
  number stod p =
      let (digits, after) = span number_char p.rest in
      emit_number (stod digits) (record p { rest = after })

  unfoldable pub emit_variable : Text → Option ℕ → Parser W → Result CompileError (Parser W)
  emit_variable id none p = err (unknown_identifier id)
  emit_variable id (some k) p = ok (emit (load_variable k) p)

  unfoldable pub emit_call : Text → Option Op → Parser W → Result CompileError (Parser W)
  emit_call name none p = err (unknown_function name)
  emit_call name (some o) p = ok (emit (plain o) p)

  -- `call` from its last `skip_ws` on.
  unfoldable pub finish_call : Text → ℕ → Parser W → Result CompileError (Parser W)
  unfolding skip_ws close call_op emit_call
  finish_call name argc p =
      close missing_paren_in_call (skip_ws p) >>= emit_call name (call_op name argc)

module _ {ℓ} {W : Type ℓ} ⦃d : Double W⦄ (stod : Text → Option W) (names : List Text) where
  unfoldable mutual
    unfolding sum_op product_op lead_of skip_ws close number span name_char index_of emit_variable
        finish_call

    pub expr : ℕ → Parser W → Result CompileError (Parser W)
    expr zero p = err out_of_fuel
    expr (suc f) p = term f p >>= λ q. expr_rest f q

    pub expr_rest : ℕ → Parser W → Result CompileError (Parser W)
    expr_rest zero p = err out_of_fuel
    expr_rest (suc f) p = expr_next f (sum_op (peek (skip_ws p))) (skip_ws p)

    pub expr_next : ℕ → Option Op → Parser W → Result CompileError (Parser W)
    expr_next zero o p = err out_of_fuel
    expr_next (suc f) none p = ok p
    expr_next (suc f) (some o) p = term f (advance p) >>= λ q. expr_rest f (emit (plain o) q)

    pub term : ℕ → Parser W → Result CompileError (Parser W)
    term zero p = err out_of_fuel
    term (suc f) p = factor f p >>= λ q. term_rest f q

    pub term_rest : ℕ → Parser W → Result CompileError (Parser W)
    term_rest zero p = err out_of_fuel
    term_rest (suc f) p = term_next f (product_op (peek (skip_ws p))) (skip_ws p)

    pub term_next : ℕ → Option Op → Parser W → Result CompileError (Parser W)
    term_next zero o p = err out_of_fuel
    term_next (suc f) none p = ok p
    term_next (suc f) (some o) p = factor f (advance p) >>= λ q. term_rest f (emit (plain o) q)

    pub factor : ℕ → Parser W → Result CompileError (Parser W)
    factor zero p = err out_of_fuel
    factor (suc f) p = factor_at f (lead_of (peek (skip_ws p))) (skip_ws p)

    pub factor_at : ℕ → Lead → Parser W → Result CompileError (Parser W)
    factor_at zero l p = err out_of_fuel
    factor_at (suc f) paren p = expr f (advance p) >>= λ q. close missing_paren (skip_ws q)
    factor_at (suc f) minus p = factor f (advance p) >>= λ q. ok (emit (plain Op.neg) q)
    factor_at (suc f) digit p = number stod p
    factor_at (suc f) letter p = identifier f p
    factor_at (suc f) other p = err unexpected_character

    pub identifier : ℕ → Parser W → Result CompileError (Parser W)
    identifier zero p = err out_of_fuel
    identifier (suc f) p =
        let (id, after) = span name_char p.rest in
        let q : Parser W = skip_ws (record p { rest = after }) in
        identifier_next f id (peek q == b'(') q

    pub identifier_next : ℕ → Text → Bool → Parser W → Result CompileError (Parser W)
    identifier_next zero id b p = err out_of_fuel
    identifier_next (suc f) id true p = call f id p
    identifier_next (suc f) id false p = emit_variable id (index_of id names 0) p

    pub call : ℕ → Text → Parser W → Result CompileError (Parser W)
    call zero name p = err out_of_fuel
    call (suc f) name p = call_args f name (peek (advance p) == b')') (advance p)

    pub call_args : ℕ → Text → Bool → Parser W → Result CompileError (Parser W)
    call_args zero name b p = err out_of_fuel
    call_args (suc f) name true p = finish_call name 0 p
    call_args (suc f) name false p = args f 0 p >>= λ r. finish_call name r.0 r.1

    -- The loop over the arguments, with `argc`.
    pub args : ℕ → ℕ → Parser W → Result CompileError (ℕ × Parser W)
    args zero argc p = err out_of_fuel
    args (suc f) argc p =
        expr f p >>= λ q. args_next f (argc + 1) (peek (skip_ws q) == b',') (skip_ws q)

    pub args_next : ℕ → ℕ → Bool → Parser W → Result CompileError (ℕ × Parser W)
    args_next zero argc b p = err out_of_fuel
    args_next (suc f) argc true p = args f argc (advance p)
    args_next (suc f) argc false p = ok (argc, p)
