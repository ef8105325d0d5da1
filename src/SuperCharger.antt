-- ===== src/SuperCharger.antt =====
-- libraries/DIGINOW_SUPERCHARGER: the charge control of the sketch v3.
pub mod Tables
pub mod State
pub mod Charging
pub mod Cutback
pub mod Heartbeat
pub mod Sharing
pub mod Taper
pub mod Exact
pub mod Frames
mod Tests
