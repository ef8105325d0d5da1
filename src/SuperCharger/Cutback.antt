-- ===== src/SuperCharger/Cutback.antt =====
-- The cutback loops of `setChargingAmps` (libraries/DIGINOW_SUPERCHARGER/SC.h) against a
-- specification that has no loops, branches or order: the least of a list of limits.
pub mod Least
pub mod Bounds
pub mod Order
