-- ===== src/Prelude/Words.antt =====
-- Machine words as native numbers. A `byte` is below 2 ^ 8, a `short` is its 16-bit pattern and
-- a `long` its 32-bit pattern; the signed reading enters by `sext` and `slt32`. The helpers
-- `word`, `highByte` and `lowByte` are macros of the Arduino language.
use Prim.Native.Nat.{ℕ, ◌+◌, ◌-◌, ◌*◌, ◌/◌, ◌%◌, ◌<◌}
use mathlib.Core.Bool.{Bool}
use scv2_sketches.Prelude.Tests.{ltb, if◌then◌else◌}

-- Conversion to `unsigned short` and to `unsigned long`.
abbrev pub u16 : ℕ → ℕ
u16 n = n % 0x1_0000

abbrev pub u32 : ℕ → ℕ
u32 n = n % 0x1_0000_0000

-- 32-bit subtraction.
abbrev pub sub32 : ℕ → ℕ → ℕ
sub32 a b = (a + 0x1_0000_0000 - b) % 0x1_0000_0000

-- 16-bit subtraction.
abbrev pub sub16 : ℕ → ℕ → ℕ
sub16 a b = (a + 0x1_0000 - b) % 0x1_0000

-- A `short` converted to a `long`: the sign bit is repeated.
abbrev pub sext : ℕ → ℕ
sext n = if ltb n 0x8000 then n else n + 0xffff_0000

-- The signed `a < b` on two 32-bit patterns: the patterns with the sign bit flipped.
abbrev pub slt32 : ℕ → ℕ → Bool
slt32 a b = ltb ((a + 0x8000_0000) % 0x1_0000_0000) ((b + 0x8000_0000) % 0x1_0000_0000)

-- The signed `a < b` on two 16-bit patterns, which C makes after converting both to `int`.
abbrev pub slt16 : ℕ → ℕ → Bool
slt16 a b = ltb ((a + 0x8000) % 0x1_0000) ((b + 0x8000) % 0x1_0000)

-- The signed division of a 32-bit pattern by a positive number rounds towards zero.
abbrev pub sdiv32 : ℕ → ℕ → ℕ
sdiv32 a d =
    if ltb a 0x8000_0000 then a / d else (0x1_0000_0000 - (0x1_0000_0000 - a) / d) % 0x1_0000_0000

-- `abs` of a `short`, which C makes on an `int`.
abbrev pub abs_short : ℕ → ℕ
abs_short n = if ltb n 0x8000 then n else 0x1_0000 - n

abbrev pub high_byte : ℕ → ℕ
high_byte n = n / 256 % 256

abbrev pub low_byte : ℕ → ℕ
low_byte n = n % 256

abbrev pub word : ℕ → ℕ → ℕ
word h l = h * 256 + l

-- The data bytes of a CAN frame, as `readMsgBuf` leaves them in an 8-byte buffer.
pub record Frame : Type 0 where
  pub b0 : ℕ
  pub b1 : ℕ
  pub b2 : ℕ
  pub b3 : ℕ
  pub b4 : ℕ
  pub b5 : ℕ
  pub b6 : ℕ
  pub b7 : ℕ

-- Every byte is below 256.
pub record IsFrame (f : Frame) : Type 0 where
  pub b0_lt : f.b0 < 256
  pub b1_lt : f.b1 < 256
  pub b2_lt : f.b2 < 256
  pub b3_lt : f.b3 < 256
  pub b4_lt : f.b4 < 256
  pub b5_lt : f.b5 < 256
  pub b6_lt : f.b6 < 256
  pub b7_lt : f.b7 < 256
