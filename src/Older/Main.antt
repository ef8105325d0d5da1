-- ===== src/Older/Main.antt =====
-- `readCommands`, `setup` and `loop` of v2.5/v2.5.ino and its variants.
use scv2_sketches.Prelude.{
  ℕ, ◌*◌, leb, if◌then◌else◌, ◌>>=◌, ◌&&◌, ◌||◌, Option, none, some, List, [], ◌∷◌, Frame, word,
  u16, sext, slt32, sdiv32, ◌/◌,
}
use scv2_sketches.V3.BikeLoop.{Floats}
use scv2_sketches.Integrated.Tables.{Row}
use scv2_sketches.Integrated.State.{output_volts_max, Controller}
use scv2_sketches.Integrated.Settings.{
  Command, command_max_amps, command_wattage, command_c_plus, command_ramp,
}
use scv2_sketches.Integrated.Buses.{bike_frames}
use scv2_sketches.Integrated.Main.{Input, Output, tick, announce}
use scv2_sketches.Older.Variants.{Variant}
use scv2_sketches.Older.Charging.{set_charging_amps}

abbrev pub version : ℕ
version = 3

-- An end voltage out of the range is not taken.
unfoldable pub command_volts : Variant → ℕ → Controller → Controller
command_volts k n s =
    if leb k.output_volts_min n && (k.lifts_end || leb n output_volts_max)
    then record s { output_volts_end = n; eeprom = record (s.eeprom) { target_volts = n } }
    else s

-- The number of chargers is an `int`, and is stored as a `long`.
unfoldable pub command_chargers : ℕ → Controller → Controller
command_chargers n s =
    if leb 0 n
    then record s {
      charger_count = u16 n;
      eeprom = record (s.eeprom) { target_charger_count = sext (u16 n) };
    }
    else s

unfoldable pub command : Variant → Command → Controller → Controller
command k c s = command_ramp c.ramp (
    command_c_plus c.one_c_plus (
      command_wattage c.wattage
        (command_chargers c.chargers (command_max_amps c.max_amps (command_volts k c.volts s)))))

unfoldable pub read_commands : Variant → List Command → Controller → Controller
read_commands k [] s = s
read_commands k (c ∷ cs) s = read_commands k cs (command k c s)

unfoldable pub setup : Controller → Controller
setup s = record s {
  output_volts_end = s.eeprom.target_volts;
  c_rate = s.eeprom.target_max_amps;
  charger_count = u16 s.eeprom.target_charger_count;
  max_station_watts = s.eeprom.target_watts;
  c_plus = s.eeprom.target_c_plus;
  ramp_rate = s.eeprom.target_ramp_rate;
}

-- Each frame from a charger overwrites the voltage.
unfoldable pub charger_frames : List Frame → Controller → Controller
charger_frames [] s = s
charger_frames (f ∷ frames) s = charger_frames frames (record s { volts = word f.b0 f.b1 })

-- The values of the line that is printed.
unfoldable pub report : Controller → List ℕ
report s =
    s.volts
    ∷ sdiv32 s.monolith_volts 100
    ∷ sdiv32 s.power_tank_volts 100
    ∷ u16 (s.charging_amps * s.charger_count)
    ∷ s.monolith_amps
    ∷ s.power_tank_amps
    ∷ s.monolith_ah
    ∷ s.power_tank_ah
    ∷ sdiv32 s.c_rate 10
    ∷ s.monolith_min_temp
    ∷ s.monolith_max_temp
    ∷ s.power_tank_min_temp
    ∷ s.power_tank_max_temp
    ∷ s.charger_count
    ∷ (s.watts / 100)
    ∷ (s.max_station_watts / 100)
    ∷ s.c_plus
    ∷ (s.ramp_rate / 100)
    ∷ version
    ∷ []

unfoldable pub control : Variant → List Row → Controller → Option Controller
control k past_end s = do
  t ← set_charging_amps k past_end (record s { delay_itteration = 22000 })
  some (announce t)

unfoldable pub loop :
    Variant → List Row → Floats → Input → Controller → Option (Controller × Output)
loop k past_end fl i s =
    let heard = charger_frames i.from_chargers (read_commands k i.commands s) in
    let (u, sent) = bike_frames fl i.from_bike heard in
    let t = tick u in
    let run = do
      c ← control k past_end t
      some (
        c,
        record {
          bike_bus = sent;
          heartbeat = some c.heartbeat;
          line = if i.serial then report c else [];
        },
      )
    in if slt32 t.delay_itteration 1
      then run
      else some (t, record { bike_bus = sent; heartbeat = none; line = [] })
