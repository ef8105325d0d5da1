-- ===== src/Zero/Decode.antt =====
-- The values in the bytes of a frame: the decoders of libraries/ZERO_MOTORCYCLE/ZERO.cpp over the
-- unions of unions.h. The processor is little-endian, so `bytes[0]` is the lowest byte.
use scv2_sketches.Prelude.{ℕ, ◌+◌, ◌*◌, ◌/◌, ◌%◌, Frame}

-- `ByteToShort` and `ByteToUnsignedShort`: the value that two bytes stand for.
abbrev pub short_of_bytes : ℕ → ℕ → ℕ
short_of_bytes b0 b1 = b0 + 256 * b1

-- `ByteToLong` and `ByteToUnsignedLong`
abbrev pub long_of_bytes : ℕ → ℕ → ℕ → ℕ → ℕ
long_of_bytes b0 b1 b2 b3 = b0 + 256 * b1 + 0x1_0000 * b2 + 0x100_0000 * b3

-- The same unions read the other way: `bytes[0]` and `bytes[1]` of a value.
abbrev pub byte0 : ℕ → ℕ
byte0 v = v % 256

abbrev pub byte1 : ℕ → ℕ
byte1 v = v / 256 % 256

unfoldable pub throttle : Frame → ℕ
throttle buf = short_of_bytes buf.b4 buf.b5

unfoldable pub amps : Frame → ℕ
amps buf = short_of_bytes buf.b3 buf.b4

unfoldable pub voltage : Frame → ℕ
voltage buf = long_of_bytes buf.b3 buf.b4 buf.b5 buf.b6

unfoldable pub sag_adjust : Frame → ℕ
sag_adjust buf = short_of_bytes buf.b0 buf.b1

unfoldable pub max_c_rate : Frame → ℕ
max_c_rate buf = short_of_bytes buf.b4 buf.b5

unfoldable pub amp_hours : Frame → ℕ
amp_hours buf = short_of_bytes buf.b5 buf.b6

-- `temp.bytes[1]` is never written: `stale` is the byte that the stack holds there.
unfoldable pub highest_temp : ℕ → Frame → ℕ
highest_temp stale buf = short_of_bytes buf.b1 stale

unfoldable pub lowest_temp : ℕ → Frame → ℕ
lowest_temp stale buf = short_of_bytes buf.b2 stale
