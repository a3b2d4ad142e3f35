-- ===== src/Gateway.antt =====
-- gateway/include/robonode/gateway: the control plane of a cell.
pub mod CommandBus
pub mod Supervisor
pub mod Router
pub mod Directory
pub mod Runtime
pub mod MotionService
pub mod Capability
pub mod Gripper
pub mod Planner
pub mod Control
pub mod Library
pub mod Verbs
pub mod Sensing
pub mod CellGateway
mod Tests
mod RuntimeTests
mod CellGatewayTests
mod LibraryTests
mod VerbsTests
mod SensingTests
