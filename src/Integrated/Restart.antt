-- ===== src/Integrated/Restart.antt =====
-- The settings of v2.6/v2.6.ino over commands and restarts.
use scv2_sketches.Prelude.{◌*◌, List, [], ◌∷◌, ◌++◌, ◌≡◌, sym, subst, u16, u32, arith}
use scv2_sketches.Zero.Decode.{byte0, byte1}
use scv2_sketches.Integrated.State.{Stored, Controller, power_up}
use scv2_sketches.Integrated.Settings.{
  Command, commit, update_heartbeat_voltage, command_volts, command_max_amps, command_chargers,
  command_wattage, command_c_plus, command_ramp, command, read_commands, setup,
}

-- The globals hold the settings of a command, in their units.
pub record Holds (c : Command) (s : Controller) : Type 0 where
  pub volts : s.output_volts_end ≡ c.volts
  pub max_amps : s.c_rate ≡ u32 (c.max_amps * 10)
  pub chargers : s.charger_count ≡ c.chargers
  pub wattage : s.max_station_watts ≡ u32 (c.wattage * 100)
  pub one_c_plus : s.c_plus ≡ c.one_c_plus
  pub ramp : s.ramp_rate ≡ u32 (c.ramp * 100)
  pub high : s.heartbeat.b0 ≡ byte0 (u16 c.volts)
  pub low : s.heartbeat.b1 ≡ byte1 (u16 c.volts)

-- The settings of a command, in their units.
abbrev settings : Command → Stored
settings c = record {
  target_volts = c.volts;
  target_max_amps = u32 (c.max_amps * 10);
  target_charger_count = c.chargers;
  target_watts = u32 (c.wattage * 100);
  target_c_plus = c.one_c_plus;
  target_ramp_rate = u32 (c.ramp * 100);
}

flash-command : (c : Command) (s : Controller) → (command c s).flash ≡ settings c
unfolding command commit command_volts command_max_amps command_chargers command_wattage
    command_c_plus command_ramp update_heartbeat_voltage
flash-command c s = ground arith

command-Holds : (c : Command) (s : Controller) → Holds c (command c s)
unfolding command commit command_volts command_max_amps command_chargers command_wattage
    command_c_plus command_ramp update_heartbeat_voltage
command-Holds c s = ground arith

setup-Holds : (c : Command) → Holds c (setup (power_up (settings c)))
unfolding setup update_heartbeat_voltage
setup-Holds c = ground arith

-- After some commands the globals hold the settings of the last one; and a restart, which finds in the
-- EEPROM what has been committed to its flash, brings all of them back, the heartbeat's voltage
-- included.
pub settings_survive_restart :
    (cs : List Command) (c : Command) (s : Controller)
    → Holds c (read_commands (cs ++ c ∷ []) s)
      × Holds c (setup (power_up (read_commands (cs ++ c ∷ []) s).flash))
unfolding read_commands
settings_survive_restart [] c s = (
  command-Holds c s,
  subst (λ e. Holds c (setup (power_up e))) (sym (flash-command c s)) (setup-Holds c),
)
settings_survive_restart (d ∷ cs) c s = settings_survive_restart cs c (command d s)
