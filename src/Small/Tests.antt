-- ===== src/Small/Tests.antt =====
-- The small sketches at concrete inputs.
use scv2_sketches.Prelude.{◌+◌, ◌/◌, ◌≤◌, true, false, [], ◌∷◌, ◌++◌, ◌≡◌, refl, arith}
use scv2_sketches.Scv2
use scv2_sketches.Zero.Network.{dash_status3}
use scv2_sketches.Zero.Predicates.{has_voltage, has_throttle}
use scv2_sketches.Zero.Decode
use scv2_sketches.V3.BikeLoop.{Received}
use scv2_sketches.Small.Sound
use scv2_sketches.Small.Pitch.{tone_follows_throttle}
use scv2_sketches.Small.Dash.{Conversions, power_up, loop}
use scv2_sketches.Small.Latest.{dash_shows_latest}
use scv2_sketches.Small.Printer.{out, decimal, basic_zero_can, zero_frames}
use scv2_sketches.Zero.Logger.{text, hex, newline}
use scv2_sketches.Small.Difference
use scv2_sketches.Small.Heartbeats.{three_units, four_units, overcharge}

-- A throttle that is opened from a tenth to the half.
tone_follows_throttle_example :
    ((Sound.loop 500 (Sound.passes (100 ∷ 100 ∷ []) Sound.power_up)).current_base ≡ 90)
    × (90 ≤ (Sound.loop 500 (Sound.passes (100 ∷ 100 ∷ []) Sound.power_up)).sound + 28)
    × ((Sound.loop 500 (Sound.passes (100 ∷ 100 ∷ []) Sound.power_up)).sound ≤ 116)
tone_follows_throttle_example = tone_follows_throttle (100 ∷ 100 ∷ []) 500 (omega arith)

abbrev conversions : Conversions
conversions = record { to_volts = λ v. v / 10; to_amps = λ a. a }

-- 100.000 V in bytes 3 to 6.
abbrev voltage_frame : Received
voltage_frame = record {
  can_id = 0x388;
  len = 8;
  buf = record { b0 = 0; b1 = 0; b2 = 0; b3 = 0xa0; b4 = 0x86; b5 = 1; b6 = 0; b7 = 0 };
  stale_max = 0;
  stale_min = 0;
}

abbrev screen_frame : Received
screen_frame = record {
  can_id = 0x540;
  len = 8;
  buf = record { b0 = 1; b1 = 2; b2 = 3; b3 = 4; b4 = 5; b5 = 6; b6 = 7; b7 = 8 };
  stale_max = 0;
  stale_min = 0;
}

-- 10000 is 0x2710.
dash_shows_latest_example :
    (loop conversions (voltage_frame ∷ screen_frame ∷ []) power_up).1
    ≡ (loop conversions (voltage_frame ∷ []) power_up).1
      ++ (record {
        id = dash_status3.id;
        len = 8;
        buf = record { b0 = 1; b1 = 2; b2 = 0x10; b3 = 0x27; b4 = 5; b5 = 6; b6 = 7; b7 = 8 };
      }
          ∷ [])
unfolding has_voltage has_throttle Decode.voltage
dash_shows_latest_example =
    dash_shows_latest conversions (voltage_frame ∷ []) screen_frame power_up refl refl

-- The heartbeats for three and four units ask for 116.4 V and for 30.0 A and 25.0 A, the other one for
-- 116.8 V and 32.0 A.
requests :
    (Scv2.voltage three_units ≡ 1164)
    × (Scv2.amps three_units ≡ 300)
    × (Scv2.voltage four_units ≡ 1164)
    × (Scv2.amps four_units ≡ 250)
    × (Scv2.voltage overcharge ≡ 1168)
    × (Scv2.amps overcharge ≡ 320)
unfolding Scv2.voltage Scv2.amps
requests = (refl, refl, refl, refl, refl, refl)

prints : basic_zero_can (record { can_id = 0x388; len = 2; buf = voltage_frame.buf } ∷ []) true ≡ (
  false,
  out (hex 0x388)
      ∷ out (text " :\t")
      ∷ decimal 0
      ∷ out (text "\t")
      ∷ decimal 0
      ∷ out (text "\t")
      ∷ out newline
      ∷ [],
)
unfolding basic_zero_can zero_frames
prints = refl

-- 200 below zero.
wrapped : Difference.loop ≡ 4294967096 ∷ []
unfolding Difference.loop
wrapped = refl
