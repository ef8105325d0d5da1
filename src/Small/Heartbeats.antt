-- ===== src/Small/Heartbeats.antt =====
-- The sketches that send one heartbeat each second: _3unit__onboard_1c/_3unit__onboard_1c.ino,
-- _4unit_1c/_4unit_1c.ino and overcharge/overcharge.ino.
use scv2_sketches.Prelude.{ℕ, Frame}

-- The id of the heartbeat, an extended one.
abbrev pub heartbeat_id : ℕ
heartbeat_id = 0x1806_e5f4

-- A request of volts and amps, high bytes first.
abbrev pub request : ℕ → ℕ → ℕ → ℕ → Frame
request b0 b1 b2 b3 = record { b0 = b0; b1 = b1; b2 = b2; b3 = b3; b4 = 0; b5 = 0; b6 = 0; b7 = 0 }

-- The frame with volts and amps in it that each of them sends under the id.
abbrev pub three_units : Frame
three_units = request 0x04 0x8c 0x01 0x2c

abbrev pub four_units : Frame
four_units = request 0x04 0x8c 0x00 0xfa

abbrev pub overcharge : Frame
overcharge = request 0x04 0x90 0x01 0x40
