-- ===== src/Integrated.antt =====
-- The integrated controller v2.6 (v2.6/v2.6.ino): one board on the bus of the motorcycle and on that
-- of the chargers, with settings that come over a serial Bluetooth line. It runs on an Arduino MKR,
-- with 32-bit `int`s.
pub mod Tables
pub mod State
pub mod Charging
pub mod Settings
pub mod Buses
pub mod Main
pub mod Restart
pub mod Tolerance
pub mod Limits
pub mod Grants
pub mod Branches
pub mod Station
pub mod Rhythm
pub mod Delay
pub mod Waiting
pub mod Rounds
pub mod Kept
pub mod Reaction
pub mod Sane
pub mod Reach
pub mod Exact
mod Tests
mod FirstRun
