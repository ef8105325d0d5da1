-- ===== src/V3/Traffic.antt =====
-- Frames of both buses that hold no value near the end of its type, for the sketch v3 (v3/v3.ino) and
-- for v2.x.
use scv2_sketches.Prelude.{ℕ, ◌<◌, false, ◌⊎◌, ◌≡◌, Frame, word}
use scv2_sketches.Zero.Predicates.{
  has_monolith_voltage, has_power_tank_voltage, has_monolith_pack_config,
  has_power_tank_pack_config,
}
use scv2_sketches.Zero.Decode.{voltage, amp_hours}
use scv2_sketches.V3.BikeLoop.{Received}

-- A charger's voltage is not negative; a battery's is below 3276.8 V, and its capacity below `cap`.
abbrev pub IsVoltage : Frame → Type 0
IsVoltage f = word f.b0 f.b1 < 0x8000

pub record IsBattery (cap : ℕ) (r : Received) : Type 0 where
  pub monolith : (has_monolith_voltage r.can_id ≡ false) ⊎ (voltage r.buf < 3276800)
  pub tank : (has_power_tank_voltage r.can_id ≡ false) ⊎ (voltage r.buf < 3276800)
  pub monolith_ah : (has_monolith_pack_config r.can_id ≡ false) ⊎ (amp_hours r.buf < cap)
  pub tank_ah : (has_power_tank_pack_config r.can_id ≡ false) ⊎ (amp_hours r.buf < cap)
