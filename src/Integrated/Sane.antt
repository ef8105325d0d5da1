-- ===== src/Integrated/Sane.antt =====
-- States of v2.6/v2.6.ino in which no value is negative or near the end of its type, and 1C+ is off:
-- every function of the sketch keeps them so.
use scv2_sketches.Prelude.{ℕ, ◌*◌, ◌≤◌, ◌<◌, List, [], ◌∷◌, All, ◌≡◌, Frame, arith}
use scv2_sketches.V3.Traffic.{IsVoltage, IsBattery}
use scv2_sketches.V3.BikeLoop.{Received, Floats}
use scv2_sketches.Integrated.State.{Stored, Controller, power_up}
use scv2_sketches.Integrated.Settings.{
  Command, commit, update_heartbeat_voltage, command_volts, command_max_amps, command_chargers,
  command_wattage, command_c_plus, command_ramp, command, read_commands, setup,
}
use scv2_sketches.Integrated.Charging.{raise_volts, pack_c_rate, ramp, prepare}
use scv2_sketches.Integrated.Buses.{
  charger_frame, charger_frames, hurry, on_volts, on_amps, on_tank_volts, on_tank_amps, on_config,
  on_tank_config, on_temps, on_tank_temps, on_throttle, on_frame, bike_frames,
}
use scv2_sketches.Integrated.Main.{Input, tick}
use scv2_sketches.Integrated.Branches.{ticked}

-- No pack has `cap` amp hours or more, and the C rate is below that of two such packs.
pub record IsSane (cap : ℕ) (s : Controller) : Type 0 where
  pub count_lt : s.charger_count < 0x8000_0000
  pub plus : s.c_plus ≡ 0
  pub rate_lt : s.c_rate < 20 * cap
  pub volts_lt : s.volts < 0x8000
  pub monolith_lt : s.monolith_volts < 3276800
  pub tank_lt : s.power_tank_volts < 3276800
  pub monolith_ah_lt : s.monolith_ah < cap
  pub tank_ah_lt : s.power_tank_ah < cap
  pub station_lt : s.max_station_watts < 0x8000_0000
  pub ramp_lt : s.ramp_rate < 0x2000_0000
  pub watts_lt : s.watts < 0x8000_0000

-- Settings in the EEPROM, and commands: no 1C+, and nothing too large.
pub record IsStored (cap : ℕ) (e : Stored) : Type 0 where
  pub count_lt : e.target_charger_count < 0x8000_0000
  pub plus : e.target_c_plus ≡ 0
  pub rate_lt : e.target_max_amps < 20 * cap
  pub station_lt : e.target_watts < 0x8000_0000
  pub ramp_lt : e.target_ramp_rate < 0x2000_0000

pub record IsSetting (cap : ℕ) (c : Command) : Type 0 where
  pub chargers_lt : c.chargers < 0x8000_0000
  pub one_c_plus : c.one_c_plus ≡ 0
  pub max_amps_lt : c.max_amps < 2 * cap
  pub wattage_lt : c.wattage < 0x0147_0000
  pub ramp_lt : c.ramp < 0x0050_0000

pub record IsInput (cap : ℕ) (i : Input) : Type 0 where
  pub commands : All (IsSetting cap) i.commands
  pub chargers : All IsVoltage i.from_chargers
  pub bike : All (IsBattery cap) i.from_bike

module _ {cap : ℕ} (cap_le : cap ≤ 0x8000) where
  pub setup-IsSane : (e : Stored) → IsStored cap e → IsSane cap (setup (power_up e))
  unfolding setup update_heartbeat_voltage
  setup-IsSane e h = ground arith

  command-IsSane :
      (c : Command) (s : Controller) → IsSetting cap c → IsSane cap s → IsSane cap (command c s)
  unfolding command commit command_volts command_max_amps command_chargers command_wattage
      command_c_plus command_ramp update_heartbeat_voltage
  command-IsSane c s a h = ground arith

  read_commands-IsSane :
      (cs : List Command) (s : Controller)
      → All (IsSetting cap) cs
      → IsSane cap s
      → IsSane cap (read_commands cs s)
  unfolding read_commands
  read_commands-IsSane [] s a h = h
  read_commands-IsSane (c ∷ cs) s a h =
      read_commands-IsSane cs (command c s) (a.1) (command-IsSane c s (a.0) h)

  charger_frame-IsSane :
      (f : Frame) (s : Controller) → IsVoltage f → IsSane cap s → IsSane cap (charger_frame f s)
  unfolding charger_frame
  charger_frame-IsSane f s v h = ground arith

  charger_frames-IsSane :
      (fs : List Frame) (s : Controller)
      → All IsVoltage fs
      → IsSane cap s
      → IsSane cap (charger_frames fs s)
  unfolding charger_frames
  charger_frames-IsSane [] s a h = h
  charger_frames-IsSane (f ∷ fs) s a h =
      charger_frames-IsSane fs (charger_frame f s) (a.1) (charger_frame-IsSane f s (a.0) h)

  module _ (r : Received) (b : IsBattery cap r) where
    on_volts-IsSane : (s : Controller) → IsSane cap s → IsSane cap (on_volts r s)
    unfolding on_volts
    on_volts-IsSane s h = ground arith

    on_amps-IsSane : (s : Controller) → IsSane cap s → IsSane cap (on_amps r s)
    unfolding on_amps hurry
    on_amps-IsSane s h = ground arith

    on_tank_volts-IsSane : (s : Controller) → IsSane cap s → IsSane cap (on_tank_volts r s)
    unfolding on_tank_volts
    on_tank_volts-IsSane s h = ground arith

    on_tank_amps-IsSane : (s : Controller) → IsSane cap s → IsSane cap (on_tank_amps r s)
    unfolding on_tank_amps hurry
    on_tank_amps-IsSane s h = ground arith

    on_config-IsSane : (s : Controller) → IsSane cap s → IsSane cap (on_config r s)
    unfolding on_config
    on_config-IsSane s h = ground arith

    on_tank_config-IsSane : (s : Controller) → IsSane cap s → IsSane cap (on_tank_config r s)
    unfolding on_tank_config
    on_tank_config-IsSane s h = ground arith

    on_rest-IsSane :
        (s : Controller)
        → IsSane cap s
        → IsSane cap (on_throttle r (on_tank_temps r (on_temps r s)))
    unfolding on_temps on_tank_temps on_throttle
    on_rest-IsSane s h = ground arith

    on_frame-IsSane : (s : Controller) → IsSane cap s → IsSane cap (on_frame r s)
    unfolding on_frame
    on_frame-IsSane s h = on_rest-IsSane _ (
        on_tank_config-IsSane _ (
          on_config-IsSane _ (
            on_tank_amps-IsSane _
              (on_tank_volts-IsSane _ (on_amps-IsSane _ (on_volts-IsSane s h))))))

  pub bike_frames-IsSane :
      (fl : Floats) (rs : List Received) (s : Controller)
      → All (IsBattery cap) rs
      → IsSane cap s
      → IsSane cap (bike_frames fl rs s).0
  unfolding bike_frames
  bike_frames-IsSane fl [] s a h = h
  bike_frames-IsSane fl (r ∷ rs) s a h =
      bike_frames-IsSane fl rs (on_frame r s) (a.1) (on_frame-IsSane r (a.0) s h)

  pub tick-IsSane : (s : Controller) → IsSane cap s → IsSane cap (tick s)
  unfolding tick
  tick-IsSane s h = ground arith

  pub ticked-IsSane :
      (fl : Floats) (i : Input) (s : Controller)
      → IsInput cap i
      → IsSane cap s
      → IsSane cap (ticked fl i s)
  ticked-IsSane fl i s a h = tick-IsSane _ (
      bike_frames-IsSane fl i.from_bike _ (a.bike) (
        charger_frames-IsSane i.from_chargers _ (a.chargers)
          (read_commands-IsSane i.commands s (a.commands) h)))

  raise_volts-IsSane :
      (pack : ℕ) (s : Controller) → pack < 3276800 → IsSane cap s → IsSane cap (raise_volts pack s)
  unfolding raise_volts
  raise_volts-IsSane pack s p h = ground arith

  pack_c_rate-IsSane : (s : Controller) → IsSane cap s → IsSane cap (pack_c_rate s)
  unfolding pack_c_rate
  pack_c_rate-IsSane s h = ground arith

  ramp-IsSane : (s : Controller) → IsSane cap s → IsSane cap (record (ramp s) { watts = 0 })
  unfolding ramp
  ramp-IsSane s h = ground arith

  -- Before the division, but for the watts.
  pub prepare-IsSane :
      (s : Controller) → IsSane cap s → IsSane cap (record (prepare s) { watts = 0 })
  unfolding prepare
  prepare-IsSane s h = ramp-IsSane _ (
      pack_c_rate-IsSane _ (
        raise_volts-IsSane s.power_tank_volts (raise_volts s.monolith_volts s) (h.tank_lt)
          (raise_volts-IsSane s.monolith_volts s (h.monolith_lt) h)))
