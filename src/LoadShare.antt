-- ===== src/LoadShare.antt =====
-- The load share sketches, which split the station's watts among the chargers on one CAN bus:
-- loadShare, LoadShare-v3, 13kw_load_share, 5.7kw_load_share, 5.7kw_load_share-SERIAL and
-- BAJA-13kw_load_share. They are one program with different constants, here a `Sketch`.
pub mod State
pub mod Cycle
pub mod Loop
pub mod Sketches
pub mod Division
pub mod Bounds
pub mod Reach
pub mod Grants
pub mod Wraps
pub mod Order
pub mod Station
pub mod Calm
pub mod Climb
pub mod Commands
pub mod Serial
pub mod Programs
pub mod SerialLoop
mod Tests
