-- ===== src/Motion.antt =====
-- motion/include/robonode/motion: from a goal to the setpoints of each control cycle.
pub mod Limits
pub mod Kinematics
pub mod Waypoints
pub mod ModuleRegistry
pub mod Governor
pub mod Validator
pub mod Blend
pub mod Cartesian
pub mod Planner
pub mod Executive
mod Tests
mod PlanningTests
