-- ===== src/Older/Sane.antt =====
-- States of v2.5/v2.5.ino and its variants in which no value is negative or near the end of its type,
-- 1C+ is off, and the station can feed the 12 V supplies: every function of the sketches keeps them so.
use scv2_sketches.Prelude.{ℕ, ◌*◌, ◌≤◌, ◌<◌, List, [], ◌∷◌, All, ◌≡◌, refl, Frame, word, arith}
use scv2_sketches.V3.Traffic.{IsVoltage, IsBattery}
use scv2_sketches.V3.BikeLoop.{Floats}
use scv2_sketches.Integrated.State.{Stored, Controller, power_up}
use scv2_sketches.Integrated.Settings.{
  Command, command_max_amps, command_wattage, command_c_plus, command_ramp,
}
use scv2_sketches.Integrated.Buses.{bike_frames}
use scv2_sketches.Integrated.Main.{Input}
use scv2_sketches.Integrated.Kept.{Kept, bike_frames-Kept, tick-Kept}
use scv2_sketches.Integrated.Sane.{IsSane, bike_frames-IsSane, tick-IsSane}
use scv2_sketches.Older.Variants.{Variant, max_12v_watts}
use scv2_sketches.Older.Main.{
  command_volts, command_chargers, command, read_commands, setup, charger_frames,
}
use scv2_sketches.Older.Branches.{counted}

pub record IsPowered (s : Controller) : Type 0 where
  pub count_lt : s.charger_count < 54
  pub supplies : max_12v_watts * s.charger_count ≤ s.max_station_watts

-- Settings in the EEPROM, and commands.
pub record IsStored (cap : ℕ) (e : Stored) : Type 0 where
  pub count_lt : e.target_charger_count < 54
  pub plus : e.target_c_plus ≡ 0
  pub rate_lt : e.target_max_amps < 20 * cap
  pub supplies : max_12v_watts * e.target_charger_count ≤ e.target_watts
  pub station_lt : e.target_watts < 0x8000_0000
  pub ramp_lt : e.target_ramp_rate < 0x2000_0000

pub record IsSetting (cap : ℕ) (c : Command) : Type 0 where
  pub chargers_lt : c.chargers < 54
  pub one_c_plus : c.one_c_plus ≡ 0
  pub max_amps_lt : c.max_amps < 2 * cap
  pub supplies : max_12v_watts * c.chargers ≤ c.wattage * 100
  pub wattage_lt : c.wattage < 0x0147_0000
  pub ramp_lt : c.ramp < 0x0050_0000

pub record IsInput (cap : ℕ) (i : Input) : Type 0 where
  pub commands : All (IsSetting cap) i.commands
  pub chargers : All IsVoltage i.from_chargers
  pub bike : All (IsBattery cap) i.from_bike

module _ {cap : ℕ} (cap_le : cap ≤ 0x8000) (k : Variant) where
  pub setup-IsSane : (e : Stored) → IsStored cap e → IsSane cap (setup (power_up e))
  unfolding setup
  setup-IsSane e h = ground arith

  pub setup-IsPowered : (e : Stored) → IsStored cap e → IsPowered (setup (power_up e))
  unfolding setup
  setup-IsPowered e h = ground arith

  command-IsSane :
      (c : Command) (s : Controller) → IsSetting cap c → IsSane cap s → IsSane cap (command k c s)
  unfolding command command_volts command_max_amps command_chargers command_wattage command_c_plus
      command_ramp
  command-IsSane c s a h = ground arith

  command-IsPowered : (c : Command) (s : Controller) → IsSetting cap c → IsPowered (command k c s)
  unfolding command command_volts command_max_amps command_chargers command_wattage command_c_plus
      command_ramp
  command-IsPowered c s a = ground arith

  read_commands-IsSane :
      (cs : List Command) (s : Controller)
      → All (IsSetting cap) cs
      → IsSane cap s
      → IsPowered s
      → IsSane cap (read_commands k cs s) × IsPowered (read_commands k cs s)
  unfolding read_commands
  read_commands-IsSane [] s a h p = (h, p)
  read_commands-IsSane (c ∷ cs) s a h p =
      read_commands-IsSane cs (command k c s) a.1 (command-IsSane c s a.0 h)
        (command-IsPowered c s a.0)

  charger_frames-IsSane :
      (fs : List Frame) (s : Controller)
      → All IsVoltage fs
      → IsSane cap s
      → IsPowered s
      → IsSane cap (charger_frames fs s) × IsPowered (charger_frames fs s)
  unfolding charger_frames
  charger_frames-IsSane [] s a h p = (h, p)
  charger_frames-IsSane (f ∷ fs) s a h p =
      charger_frames-IsSane fs (record s { volts = word f.b0 f.b1 }) a.1
        (record {
          count_lt = h.count_lt;
          plus = h.plus;
          rate_lt = h.rate_lt;
          volts_lt = a.0;
          monolith_lt = h.monolith_lt;
          tank_lt = h.tank_lt;
          monolith_ah_lt = h.monolith_ah_lt;
          tank_ah_lt = h.tank_ah_lt;
          station_lt = h.station_lt;
          ramp_lt = h.ramp_lt;
          watts_lt = h.watts_lt;
        })
        (record { count_lt = p.count_lt; supplies = p.supplies })

  -- What keeps the settings keeps the station able to feed the supplies.
  Kept-IsPowered : (s t : Controller) → Kept s t → IsPowered s → IsPowered t
  Kept-IsPowered s t e p = omega (arith, e.count, e.station, p.count_lt, p.supplies)

  pub counted-IsSane :
      (fl : Floats) (i : Input) (s : Controller)
      → IsInput cap i
      → IsSane cap s
      → IsPowered s
      → IsSane cap (counted k fl i s) × IsPowered (counted k fl i s)
  counted-IsSane fl i s a h p =
      let u = read_commands k i.commands s in
      let c = read_commands-IsSane i.commands s a.commands h p in
      let v = charger_frames i.from_chargers u in
      let (g, q) = charger_frames-IsSane i.from_chargers u a.chargers c.0 c.1 in
      (
        tick-IsSane cap_le (bike_frames fl i.from_bike v).0
            (bike_frames-IsSane cap_le fl i.from_bike v a.bike g),
        Kept-IsPowered v (counted k fl i s)
            (tick-Kept (bike_frames fl i.from_bike v).0 (
              bike_frames-Kept fl i.from_bike v
                (record { count = refl; station = refl; plus = refl })))
            q,
      )
