-- ===== src/LoadShare/Loop.antt =====
-- `setup`, `readCommands`, the interrupt handler and `loop` of a load share sketch. What the code
-- takes from libraries enters as arguments: the values that `toInt` gives for the commands that
-- are waiting (32-bit patterns), the frames that are waiting, and whether a port is open.
use scv2_sketches.Prelude.{
  ℕ, ◌/◌, ◌==◌, ltb, leb, if◌then◌else◌, ◌>>=◌, Bool, true, Option, none, some, List, [], ◌∷◌,
  Frame,
}
use scv2_sketches.LoadShare.State.{
  Board, full, brief, hundredths, Sketch, version, wattage_max_unset, station_watts_default, State,
}
use scv2_sketches.LoadShare.Cycle.{product, cycle}

unfoldable pub mcp2515_isr : State → State
mcp2515_isr s = record s { flag_recv = true }

-- One round of the loop of `readCommands`. The target is unsigned, so the first test always holds
-- and the second never.
unfoldable pub command : ℕ → State → State
command target s =
    let stored =
      if leb 0 target then record s { max_station_watts = target; eeprom = target } else s in
    if ltb target 0 then record stored { max_station_watts = 0 } else stored

unfoldable pub read_commands : List ℕ → State → State
read_commands [] s = s
read_commands (target ∷ targets) s = read_commands targets (command target s)

-- The start of the CAN chip and of the port is not modelled.
unfoldable pub setup : State → State
setup s = record s {
  max_station_watts = if ltb wattage_max_unset s.eeprom then station_watts_default else s.eeprom;
}

-- The values of one line on the serial port. loadShare.ino divides by the number of chargers.
unfoldable pub report : Sketch → Board → State → Option (List ℕ)
report k board s = elim k.telemetry [
  | full ↦
      if s.charger_count == 0
      then none
      else some (
          s.volts
          ∷ s.amps
          ∷ (s.amps / s.charger_count)
          ∷ s.charger_count
          ∷ s.watts
          ∷ s.max_station_watts
          ∷ product board s.charging_amps s.charger_count
          ∷ s.charging_amps
          ∷ version
          ∷ [])
  | brief ↦ some (s.volts ∷ s.amps ∷ s.charger_count ∷ s.watts ∷ version ∷ [])
  | hundredths ↦ some (s.volts ∷ s.amps ∷ s.charger_count ∷ (s.watts / 100) ∷ version ∷ [])
]

pub record Input : Type 0 where
  pub commands : List ℕ
  pub frames : List Frame
  pub serial : Bool

-- What one pass of `loop` sends: a line on the port, and the heartbeat on the bus.
pub record Output : Type 0 where
  pub line : List ℕ
  pub sent : Frame

unfoldable pub control : Sketch → Board → List Frame → State → Option State
control k board frames s = if s.flag_recv then cycle k board frames s else some s

unfoldable pub loop : Sketch → Board → Input → State → Option (State × Output)
loop k board i s = do
  t ← control k board i.frames (read_commands i.commands s)
  line ← if i.serial then report k board t else some []
  some (t, record { line = line; sent = t.heartbeat })
