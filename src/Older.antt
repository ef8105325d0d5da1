-- ===== src/Older.antt =====
-- The older versions of the controller v2.6: v2.5/v2.5.ino, DEBUG_2.5/DEBUG_2.5.ino and
-- 13kw_force/13kw_force.ino, which differ in a few constants and tests. They keep v2.6's globals,
-- its tables and its reading of the motorcycle's bus (Integrated), but run on an AVR board, with
-- 16-bit `int`s.
pub mod Variants
pub mod Charging
pub mod Main
pub mod Programs
pub mod Grants
pub mod Branches
pub mod Station
pub mod Sane
pub mod Reach
pub mod Rounds
pub mod Exact
mod Tests
mod FirstRun
