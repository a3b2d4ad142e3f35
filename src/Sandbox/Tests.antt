-- ===== src/Sandbox/Tests.antt =====
-- Concrete runs of the sandbox over whole numbers, and the theorems at concrete inputs.
use robonode.Prelude.{
  ℕ, ◌+◌, ◌-◌, ◌*◌, ◌≡◌, refl, Option, none, some, List, [], ◌∷◌, map, Text, bytes, is_empty,
  if◌then◌else◌, arith,
}
use robonode.Prelude.Int.{pos, negsuc}
use robonode.Core.Result.{Result, ok, err, Post}
use robonode.Core.Double.Whole.{Whole, whole}
use robonode.Sandbox.Program.{SandboxLimits, Op, Program, VmError, push_const, load_input}
use robonode.Sandbox.Eval.{eval_channel, run}
use robonode.Sandbox.Expr.{Expr, literal, variable, apply₂, Binary, depth, code_of, value_of}
use robonode.Sandbox.Machine.Safety.{IsResource, eval_channel-code_of}
use robonode.Sandbox.Compiler.{compile}
use robonode.Sandbox.Compiler.Emits.{HasFuel}
use robonode.Sandbox.Compiler.Grammar.{CompileError}
use robonode.Sandbox.Compiler.Correct.{IsCodeOf, compile-IsCodeOf, compile-run}

-- The decimal value of the digits.
abbrev digits_value : Text → ℕ → ℕ
digits_value [] acc = acc
digits_value (c ∷ t) acc = digits_value t (acc * 10 + (c - 48))

abbrev stod : Text → Option Whole
stod t = if is_empty t then none else some (some (pos (digits_value t 0)))

abbrev two_names : List Text
two_names = bytes "x" ∷ bytes "y" ∷ []

abbrev limits : SandboxLimits
limits = record { max_ops = 512; max_stack = 64 }

abbrev inputs : List Whole
inputs = some (pos 10) ∷ some (pos 9) ∷ []

on_inputs : Result CompileError (Program Whole) → Option (Result VmError (List Whole))
on_inputs (ok p) = some (run p inputs limits)
on_inputs (err e) = none

run-compile :
    on_inputs (compile stod two_names (bytes "x*2 + clamp(y, 1, (3+4)) ; -max(1,2)") 2)
    ≡ some (ok (some (pos 27) ∷ some (negsuc 1) ∷ []))
unfolding on_inputs compile run
run-compile = refl

bad_call :
    compile stod two_names (bytes "min(1)") 1 ≡ err (CompileError.unknown_function (bytes "min"))
unfolding compile
bad_call = refl

too_few : compile stod two_names (bytes "x;\n ;") 2 ≡ err (CompileError.wrong_channel_count 2 1)
unfolding compile
too_few = refl

-- y - 1
abbrev program : Program Whole
program = record {
  channels =
      (record { op = load_input; value = some (pos 0); input = 1 }
        ∷ record { op = push_const; value = some (pos 1); input = 0 }
        ∷ record { op = Op.sub; value = some (pos 0); input = 0 }
        ∷ [])
      ∷ [];
  input_count = 2;
}

compile-program : compile stod two_names (bytes "y - 1") 1 ≡ ok program
unfolding compile
compile-program = refl

abbrev tree : Expr Whole
tree = apply₂ Binary.difference (variable 1) (literal (some (pos 1)))

eval_channel-code_of_example : eval_channel (code_of tree) inputs limits ≡ ok (some (pos 8))
unfolding value_of code_of depth
eval_channel-code_of_example =
    eval_channel-code_of limits inputs tree (omega arith, tt) (omega arith) (omega arith)

compile-IsCodeOf_example :
    Post
      (λ prog. (es : List (Expr Whole)) × IsCodeOf stod two_names prog es 1)
      HasFuel
      (compile stod two_names (bytes "y - 1") 1)
compile-IsCodeOf_example = compile-IsCodeOf stod two_names (bytes "y - 1") 1

compile-run_example :
    (es : List (Expr Whole)) × IsCodeOf stod two_names program es 1
    × Post (λ out. out ≡ map (value_of inputs) es) IsResource (run program inputs limits)
compile-run_example =
    compile-run stod two_names (bytes "y - 1") 1 program compile-program limits inputs refl
