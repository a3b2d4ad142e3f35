-- ===== src/Motion/Cartesian.antt =====
-- motion/cartesian.hpp: inverse kinematics by damped least squares, and the straight line of a tool.
pub mod Solve
pub mod Ik
pub mod Reach
pub mod Jog
pub mod MoveL
