-- ===== src/Program.antt =====
-- The application programs of a cell: gateway/program_runner.hpp and what it uses of celld.
pub mod Station
pub mod Runner
pub mod Verbs
pub mod Keeps
pub mod Contract
pub mod Slots
mod Tests
