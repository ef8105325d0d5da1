-- ===== src/LoadShare/State.antt =====
-- The constants and the globals of a load share sketch.
use scv2_sketches.Prelude.{ℕ, Bool, false, List, Frame}

-- A cutback row: a voltage threshold and the watts above it.
abbrev pub Row : Type 0
Row = ℕ × ℕ

-- The board's `int`: 16 bits on an Arduino Uno, 32 bits on an Arduino MKR.
pub data Board : Type 0 where
  uno mkr : Board

-- What a row of the cutback table does: loadShare.ino takes one ramp step off the watts, the other
-- kind sets the station's target and the watts to the row's.
pub data CutbackRule : Type 0 where
  step_down lower_target : CutbackRule

-- Which values the sketch prints.
pub data Telemetry : Type 0 where
  full brief hundredths : Telemetry

pub record Sketch : Type 0 where
  pub output_volts_max : ℕ
  pub output_volts_min : ℕ
  pub ramp_rate : ℕ
  pub cutback : List Row
  pub rule : CutbackRule
  pub telemetry : Telemetry

abbrev pub version : ℕ
version = 2

-- Watts are in hundredths, volts and amps in tenths.
abbrev pub wattage_max_unset : ℕ
wattage_max_unset = 1400000

abbrev pub station_watts_default : ℕ
station_watts_default = 660000

abbrev pub max_12v_watts : ℕ
max_12v_watts = 7600

-- The globals, and the long that the EEPROM holds at TargetWattsAddress. An `unsigned short` is
-- below 2 ^ 16 and an `unsigned long` below 2 ^ 32. The `int` that counts the
-- frames of a pass is never negative, and the language gives a run that counts it past its largest
-- value (32767 on a Uno) no meaning; the model goes on counting there.
pub record State : Type 0 where
  pub max_station_watts : ℕ
  pub charging_amps : ℕ
  pub charger_count : ℕ
  pub volts : ℕ
  pub amps : ℕ
  pub last_watts : ℕ
  pub watts : ℕ
  pub station_watts : ℕ
  pub heartbeat : Frame
  pub flag_recv : Bool
  pub eeprom : ℕ

-- The values that the globals start with; the heartbeat is the sketch's, the EEPROM the board's.
abbrev pub initial : Frame → ℕ → State
initial heartbeat eeprom = record {
  max_station_watts = 0;
  charging_amps = 0;
  charger_count = 0;
  volts = 0;
  amps = 0;
  last_watts = 0;
  watts = 0;
  station_watts = 0;
  heartbeat = heartbeat;
  flag_recv = false;
  eeprom = eeprom;
}
