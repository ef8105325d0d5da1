-- ===== src/V3.antt =====
-- The sketch v3: a charge controller on a Zero motorcycle (v3/v3.ino, v3/ZERO_BIKE.h,
-- v3/ZERO_V3_BLE.h, v3/debug.h), over libraries/ZERO_MOTORCYCLE and
-- libraries/DIGINOW_SUPERCHARGER. It runs on an Arduino MKR, with 32-bit `int`s.
pub mod State
pub mod BikeLoop
pub mod Traffic
pub mod Phone
pub mod Main
pub mod InStep
pub mod Frames
pub mod Rhythm
pub mod Within
pub mod Rounds
pub mod Writes
pub mod Startup
pub mod Branches
pub mod Station
pub mod Sane
pub mod Reach
mod Tests
mod FirstRun
