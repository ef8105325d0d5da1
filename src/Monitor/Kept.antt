-- ===== src/Monitor/Kept.antt =====
-- The commands of the phone to the monitor (Zero_charge_monitoring/Zero_charge_monitoring.ino).
use scv2_sketches.Prelude.{◌≡◌, false, List, [], ◌∷◌, slt32, arith}
use scv2_sketches.Monitor.State.{Monitor, power_up}
use scv2_sketches.Monitor.Command.{set_output_volts}
use scv2_sketches.Monitor.Pass.{Settings, setup, command, commands}

-- The settings that a command leaves: an end voltage of 70.000 V at least and watts that are not
-- negative, both stored.
pub record Kept (s : Monitor) : Type 0 where
  pub volts_least : slt32 s.end_volts 70000 ≡ false
  pub watts_least : slt32 s.target_watts 0 ≡ false
  pub stored_watts : s.eeprom.target_watts ≡ s.target_watts
  pub stored_volts : s.eeprom.end_volts ≡ s.end_volts

command-Kept : (c : Settings) (s : Monitor) → Kept (command c s)
unfolding command
command-Kept c s = ground arith

commands-Kept : (cs : List Settings) (s : Monitor) → Kept s → Kept (commands cs s)
unfolding commands
commands-Kept [] s h = h
commands-Kept (c ∷ cs) s h = commands-Kept cs (command c s) (command-Kept c s)

-- After one command or more the end voltage is at least 70.000 V and the watts are not negative, and
-- the monitor finds the same two settings when it starts again.
pub commands_survive_restart :
    (c : Settings) (cs : List Settings) (s : Monitor)
    → Kept (commands (c ∷ cs) s)
      × ((setup (power_up (commands (c ∷ cs) s).eeprom)).end_volts
          ≡ (commands (c ∷ cs) s).end_volts)
      × ((setup (power_up (commands (c ∷ cs) s).eeprom)).target_watts
          ≡ (commands (c ∷ cs) s).target_watts)
unfolding setup commands set_output_volts
commands_survive_restart c cs s =
    let h = commands-Kept cs (command c s) (command-Kept c s) in (h, h.stored_volts, h.stored_watts)
