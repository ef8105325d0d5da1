-- ===== src/Zero/FrameLayout.antt =====
-- Where the quantities lie in a frame. Facts about the decoders of
-- libraries/ZERO_MOTORCYCLE/ZERO.cpp.
use scv2_sketches.Prelude.{ℕ, ◌/◌, ◌%◌, ◌<◌, ◌≡◌, Frame, IsFrame, arith}
use scv2_sketches.Zero.Decode.{byte0, byte1, voltage}

-- A frame that carries a 32-bit voltage in bytes 3 to 6, the lowest byte first.
abbrev pub put_voltage : ℕ → Frame → Frame
put_voltage v buf = record buf {
  b3 = byte0 v;
  b4 = byte1 v;
  b5 = v / 0x1_0000 % 256;
  b6 = v / 0x100_0000 % 256;
}

-- Any 32-bit voltage that a sender puts in bytes 3 to 6, lowest byte first, is what `voltage`
-- reads; and what it reads from the bytes of any frame is a 32-bit value with just these bytes.
pub voltage_round_trip :
    (v : ℕ) {buf : Frame}
    → v < 0x1_0000_0000
    → IsFrame buf
    → (voltage (put_voltage v buf) ≡ v)
      × (put_voltage (voltage buf) buf ≡ buf)
      × (voltage buf < 0x1_0000_0000)
unfolding voltage
voltage_round_trip v h f = ground arith
