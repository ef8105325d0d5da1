-- ===== src/Integrated/Settings.antt =====
-- `readCommands`, `updateHeartbeatVoltage` and `setup` of v2.6/v2.6.ino. `EEPROM.readLong` gives
-- back what `EEPROM.writeLong` stored, and a restart finds what `EEPROM.commit` kept.
use scv2_sketches.Prelude.{ℕ, ◌*◌, leb, if◌then◌else◌, List, [], ◌∷◌, u16, u32}
use scv2_sketches.Zero.Decode.{byte0, byte1}
use scv2_sketches.Integrated.State.{Controller}

-- A line of six numbers, each as `toInt` and the conversion to `unsigned long` give it.
pub record Command : Type 0 where
  pub volts : ℕ
  pub max_amps : ℕ
  pub chargers : ℕ
  pub wattage : ℕ
  pub one_c_plus : ℕ
  pub ramp : ℕ

-- The end voltage, as a `short`, is copied byte by byte out of a little-endian union.
unfoldable pub update_heartbeat_voltage : Controller → Controller
update_heartbeat_voltage s = record s {
  heartbeat = record (s.heartbeat) {
    b0 = byte0 (u16 s.output_volts_end);
    b1 = byte1 (u16 s.output_volts_end);
  };
}

unfoldable pub command_volts : ℕ → Controller → Controller
command_volts n s =
    if leb 0 n
    then update_heartbeat_voltage
        (record s { output_volts_end = n; eeprom = record (s.eeprom) { target_volts = n } })
    else s

unfoldable pub command_max_amps : ℕ → Controller → Controller
command_max_amps n s =
    if leb 0 n
    then record s {
      c_rate = u32 (n * 10);
      eeprom = record (s.eeprom) { target_max_amps = u32 (n * 10) };
    }
    else s

unfoldable pub command_chargers : ℕ → Controller → Controller
command_chargers n s =
    if leb 0 n
    then record s { charger_count = n; eeprom = record (s.eeprom) { target_charger_count = n } }
    else s

unfoldable pub command_wattage : ℕ → Controller → Controller
command_wattage n s =
    if leb 0 n
    then record s {
      max_station_watts = u32 (n * 100);
      eeprom = record (s.eeprom) { target_watts = u32 (n * 100) };
    }
    else s

unfoldable pub command_c_plus : ℕ → Controller → Controller
command_c_plus n s =
    if leb 0 n then record s { c_plus = n; eeprom = record (s.eeprom) { target_c_plus = n } } else s

unfoldable pub command_ramp : ℕ → Controller → Controller
command_ramp n s =
    if leb 0 n
    then record s {
      ramp_rate = u32 (n * 100);
      eeprom = record (s.eeprom) { target_ramp_rate = u32 (n * 100) };
    }
    else s

-- `EEPROM.commit()`: what has been written is kept over a restart.
unfoldable pub commit : Controller → Controller
commit s = record s { flash = s.eeprom }

-- One line.
unfoldable pub command : Command → Controller → Controller
command c s = commit (
    command_ramp c.ramp (
      command_c_plus c.one_c_plus (
        command_wattage c.wattage
          (command_chargers c.chargers (command_max_amps c.max_amps (command_volts c.volts s))))))

unfoldable pub read_commands : List Command → Controller → Controller
read_commands [] s = s
read_commands (c ∷ cs) s = read_commands cs (command c s)

unfoldable pub setup : Controller → Controller
setup s = update_heartbeat_voltage (record s {
  output_volts_end = s.eeprom.target_volts;
  c_rate = s.eeprom.target_max_amps;
  charger_count = s.eeprom.target_charger_count;
  max_station_watts = s.eeprom.target_watts;
  c_plus = s.eeprom.target_c_plus;
  ramp_rate = s.eeprom.target_ramp_rate;
})
