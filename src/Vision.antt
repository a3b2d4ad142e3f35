-- ===== src/Vision.antt =====
-- The vision layer: the trackers of vision/tracker.hpp.
pub mod Tracker
pub mod Smoothed
mod Tests
