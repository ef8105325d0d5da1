-- ===== src/ForceCharge.antt =====
-- basic_force_charge/basic_force_charge.ino: a fixed current for chargers at one station, on an
-- Arduino Uno with 16-bit `int`s. Its prints and the setup of the CAN chip are left out.
pub mod Pass
pub mod Limits
mod Tests
