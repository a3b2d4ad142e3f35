-- ===== src/Celld.antt =====
-- celld/include/robonode/celld: a cell as a tree of nodes, from its descriptor to its moves.
pub mod Driver
pub mod Cell
pub mod Run
pub mod Safety
pub mod Replace
pub mod CellDescriptor
pub mod Robot
pub mod Conveyor
pub mod DocStore
pub mod Example
mod Tests
mod DocTests
