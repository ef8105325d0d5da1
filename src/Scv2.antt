-- ===== src/Scv2.antt =====
-- libraries/SCv2: the frames of the SCv2 charger, whose shorts have the high byte first.
use scv2_sketches.Prelude.{ℕ, Frame}
use scv2_sketches.Zero.Decode.{short_of_bytes}

unfoldable pub amps : Frame → ℕ
amps buf = short_of_bytes buf.b3 buf.b2

unfoldable pub voltage : Frame → ℕ
voltage buf = short_of_bytes buf.b1 buf.b0
