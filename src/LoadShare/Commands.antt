-- ===== src/LoadShare/Commands.antt =====
-- The station's target of a load share sketch, over commands and restarts.
use scv2_sketches.Prelude.{ℕ, ◌≤◌, ltb, if◌then◌else◌, List, [], ◌∷◌, ◌++◌, ◌≡◌, arith}
use scv2_sketches.LoadShare.State.{wattage_max_unset, station_watts_default, State}
use scv2_sketches.LoadShare.Loop.{command, read_commands, setup}

command-eq :
    (target : ℕ) (s : State)
    → command target s ≡ record s { max_station_watts = target; eeprom = target }
unfolding command
command-eq target s = ground arith

-- The last of the commands that are waiting becomes the target, and survives a restart if it is at
-- most 14 kW (otherwise the restart sets 6.6 kW). A negative command is no exception: its pattern,
-- an `unsigned long` of 2 ^ 31 or more, becomes the target. Whatever the EEPROM holds, the target
-- after a start is at most 14 kW.
pub last_command_stored :
    (targets : List ℕ) (target : ℕ) (s t : State)
    → ((read_commands (targets ++ target ∷ []) s).max_station_watts ≡ target)
      × ((setup (read_commands (targets ++ target ∷ []) s)).max_station_watts
          ≡ (if ltb wattage_max_unset target then station_watts_default else target))
      × ((setup t).max_station_watts ≤ wattage_max_unset)
unfolding read_commands setup
last_command_stored [] target s t = ground (arith, command-eq target s)
last_command_stored (c ∷ targets) target s t = last_command_stored targets target (command c s) t
