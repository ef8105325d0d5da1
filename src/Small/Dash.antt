-- ===== src/Small/Dash.antt =====
-- ZeroDashVoltage/ZeroDashVoltage.ino: the voltage and the current on the motorcycle's dash. The
-- calls of the decoders of libraries/ZERO_MOTORCYCLE have an argument more than the methods, which
-- do not read it.
use scv2_sketches.Prelude.{ℕ, ◌==◌, if◌then◌else◌, List, [], ◌∷◌, ◌++◌, slt16, abs_short}
use scv2_sketches.Zero.Network.{dash_status2, dash_status3}
use scv2_sketches.Zero.Predicates.{has_voltage, has_amps, has_throttle}
use scv2_sketches.Zero.Decode.{byte0, byte1, voltage, amps, throttle}
use scv2_sketches.V3.BikeLoop.{Received, Sent}

-- The globals.
pub record Dash : Type 0 where
  pub volts : ℕ
  pub amps : ℕ
  pub throttle : ℕ

abbrev pub power_up : Dash
power_up = record { volts = 0; amps = 0; throttle = 0 }

-- The conversions `voltage*KM_TO_MI/10` and `abs(amps)*MI_TO_KM*100`, made in floating point and cut
-- to a `long` and an `unsigned short`.
pub record Conversions : Type 0 where
  pub to_volts : ℕ → ℕ
  pub to_amps : ℕ → ℕ

unfoldable pub on_voltage : Conversions → Received → Dash → Dash
on_voltage c r s =
    if has_voltage r.can_id then record s { volts = c.to_volts (voltage r.buf) } else s

unfoldable pub on_amps : Conversions → Received → Dash → Dash
on_amps c r s =
    if has_amps r.can_id then record s { amps = c.to_amps (abs_short (amps r.buf)) } else s

unfoldable pub on_throttle : Received → Dash → Dash
on_throttle r s = if has_throttle r.can_id then record s { throttle = throttle r.buf } else s

-- The two frames that the dash reads are sent again, with the values in them.
unfoldable pub answer : Received → Dash → List Sent
answer r s =
    if slt16 s.throttle 300
    then (if r.can_id == dash_status3.id
        then record {
          id = dash_status3.id;
          len = r.len;
          buf = record (r.buf) { b2 = byte0 s.volts; b3 = byte1 s.volts };
        }
          ∷ []
        else [])
      ++ (if r.can_id == dash_status2.id
          then record {
            id = dash_status2.id;
            len = r.len;
            buf = record (r.buf) { b4 = byte0 s.amps; b5 = byte1 s.amps };
          }
            ∷ []
          else [])
    else []

unfoldable pub on_frame : Conversions → Received → Dash → Dash
on_frame c r s = on_throttle r (on_amps c r (on_voltage c r s))

-- The frames that are waiting.
unfoldable pub loop : Conversions → List Received → Dash → Dash × List Sent
loop c [] s = (s, [])
loop c (r ∷ rs) s =
    let t = on_frame c r s in let rest = loop c rs t in (rest.0, answer r t ++ rest.1)
