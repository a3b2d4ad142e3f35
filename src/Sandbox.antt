-- ===== src/Sandbox.antt =====
-- sandbox/include/robonode/sandbox: a user's expressions, compiled to stack code that a bounded
-- machine runs.
pub mod Program
pub mod Eval
pub mod Expr
pub mod Machine
pub mod Chars
pub mod Wasm
pub mod Compiler
mod Tests
mod WasmTests
