-- ===== src/Core.antt =====
-- The vocabulary of core/include/robonode/core: results, floating point, the stop request.
pub mod Result
pub mod Double
pub mod Geometry
pub mod Map
pub mod Action
