-- ===== src/Sandbox/Program.antt =====
-- sandbox/program.hpp: byte code, and the limits of the machine.
use robonode.Prelude.{ℕ, List}

pub record SandboxLimits : Type 0 where
  pub max_ops : ℕ
  pub max_stack : ℕ

pub data Op : Type 0 where
  push_const load_input add sub mul div neg min max abs clamp : Op

pub record Instr {ℓ} (W : Type ℓ) : Type ℓ where
  pub op : Op
  pub value : W
  pub input : ℕ

abbrev pub ByteCode {ℓ} : Type ℓ → Type ℓ
ByteCode W = List (Instr W)

pub record Program {ℓ} (W : Type ℓ) : Type ℓ where
  pub channels : List (ByteCode W)
  pub input_count : ℕ

-- The messages of `eval_channel` and `run`.
pub data VmError : Type 0 where
  op_budget_exceeded stack_overflow input_out_of_range stack_underflow : VmError
  not_one_value input_arity_mismatch : VmError
