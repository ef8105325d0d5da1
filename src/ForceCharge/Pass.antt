-- ===== src/ForceCharge/Pass.antt =====
-- The interrupt and `loop` of basic_force_charge/basic_force_charge.ino and of its other version
-- basic_force_charge_TERRY/basic_force_charge_TERRY.ino. Volts and amps are whole here: the tenths of
-- a report are cut off.
use scv2_sketches.Prelude.{
  ℕ, ◌+◌, ◌*◌, ◌/◌, ◌==◌, ltb, if◌then◌else◌, ◌>>=◌, Bool, true, false, Option, none, some, List,
  [], ◌∷◌, Frame, word, high_byte, low_byte, u16,
}

-- What sets the two sketches apart: the amps that a station has, and the limits of the battery.
pub record Constants : Type 0 where
  pub station_current_good : ℕ
  pub station_current_bad : ℕ
  pub output_voltage_max : ℕ
  pub output_current_max : ℕ
  pub volts_low_byte : ℕ
  pub amps_low_byte : ℕ

abbrev pub basic : Constants
basic = record {
  station_current_good = 31;
  station_current_bad = 26;
  output_voltage_max = 116;
  output_current_max = 94;
  volts_low_byte = 0x8c;
  amps_low_byte = 0x40;
}

abbrev pub terry : Constants
terry = record {
  station_current_good = 30;
  station_current_bad = 26;
  output_voltage_max = 119;
  output_current_max = 129;
  volts_low_byte = 0xa0;
  amps_low_byte = 0x7f;
}

abbrev pub station_voltage : ℕ
station_voltage = 208

abbrev pub max_chargers_per_station : ℕ
max_chargers_per_station = 2

-- The globals.
pub record Force : Type 0 where
  pub max_jamps : ℕ
  pub heartbeat : Frame
  pub flag_recv : Bool

abbrev pub start : Constants → Force
start k = record {
  max_jamps = 0;
  heartbeat = record {
    b0 = 0x04;
    b1 = k.volts_low_byte;
    b2 = 0x01;
    b3 = k.amps_low_byte;
    b4 = 0;
    b5 = 0;
    b6 = 0;
    b7 = 0;
  };
  flag_recv = false;
}

unfoldable pub mcp2515_isr : Force → Force
mcp2515_isr s = record s { flag_recv = true }

-- The locals that the loop over frames fills.
pub record Reading : Type 0 where
  pub charger_count : ℕ
  pub volts : ℕ
  pub amps : ℕ

-- The choice of the station by a pin. The test after each assignment never holds, so the local
-- `chargingAmps` stays 0.
unfoldable pub station : Constants → Bool → Force → Force × ℕ
station k bad s =
    let current = if bad then k.station_current_bad else k.station_current_good in
    (
      record s { max_jamps = current },
      if ltb current current
          then u16 (current * station_voltage) / 90 / max_chargers_per_station
          else 0,
    )

unfoldable pub frame : Frame → Reading → Reading
frame f r =
    let charger_volts = word f.b0 f.b1 / 10 in
    let sum = u16 (r.volts + charger_volts) in
    record {
      charger_count = r.charger_count + 1;
      volts =
          if ltb 0 charger_volts
          then (if ltb 1 (r.charger_count + 1) then sum / max_chargers_per_station else sum)
          else r.volts;
      amps = u16 (r.amps + word f.b2 f.b3 / 10);
    }

unfoldable pub frames : List Frame → Reading → Reading
frames [] r = r
frames (f ∷ fs) r = frames fs (frame f r)

-- The amps at the station's voltage.
unfoldable pub jamps : Reading → ℕ
jamps r =
    let watts = u16 (r.amps * r.volts) in
    if ltb max_chargers_per_station r.charger_count
    then u16 (watts / 3 * max_chargers_per_station / station_voltage)
    else watts / station_voltage

-- Above 1C the amps are those of 1C, shared.
unfoldable pub limit_current : Constants → Reading → ℕ → Option ℕ
limit_current k r charging =
    if ltb k.output_current_max r.amps
    then (if r.charger_count == 0 then none else some (k.output_current_max / r.charger_count))
    else some charging

-- Above the station's amps they are those that the station has.
unfoldable pub limit_station : ℕ → Reading → ℕ → Option ℕ
limit_station max_jamps r charging =
    let at_station = u16 (max_jamps * station_voltage) / r.volts / max_chargers_per_station in
    if ltb max_jamps (jamps r)
    then (if r.volts == 0
        then none
        else some (if ltb at_station charging then at_station else charging))
    else some charging

unfoldable pub announce : Constants → Reading → ℕ → Frame → Frame
announce k r charging f =
    let tenths = u16 (charging * 10) in
    let set =
      if ltb 0 charging then record f { b2 = high_byte tenths; b3 = low_byte tenths } else f in
    if ltb k.output_voltage_max r.volts then record set { b2 = 0; b3 = 0 } else set

unfoldable pub loop : Constants → Bool → List Frame → Force → Option Force
loop k bad fs s =
    let (t, charging) = station k bad s in
    let r = frames fs (record { charger_count = 0; volts = 0; amps = 0 }) in
    let cycle = do
      limited ← limit_current k r charging
      final ← limit_station t.max_jamps r limited
      some (record t { heartbeat = announce k r final t.heartbeat; flag_recv = false })
    in if t.flag_recv then cycle else some t

-- The pass of each sketch.
abbrev pub basic_loop : Bool → List Frame → Force → Option Force
basic_loop = loop basic

abbrev pub terry_loop : Bool → List Frame → Force → Option Force
terry_loop = loop terry
