-- ===== src/Monitor.antt =====
-- Zero_charge_monitoring/Zero_charge_monitoring.ino: a monitor between a motorcycle and its chargers
-- that closes the gap between their voltages. It runs on an Arduino Uno, with 16-bit `int`s.
pub mod State
pub mod Command
pub mod Pass
pub mod Handlers
pub mod Fresh
pub mod Asked
pub mod Sends
pub mod Undefined
pub mod Counts
pub mod Windows
pub mod Settle
pub mod Kept
mod Tests
