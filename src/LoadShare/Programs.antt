-- ===== src/LoadShare/Programs.antt =====
-- Each load share sketch as a whole: its globals at power up, its interrupt handler, `readCommands`,
-- `setup` and `loop`, all on an Arduino Uno.
use scv2_sketches.Prelude.{ℕ, Option, List, Frame}
use scv2_sketches.LoadShare.State.{uno, Sketch, State, initial}
use scv2_sketches.LoadShare.Loop.{Input, Output, mcp2515_isr, read_commands, setup, loop}
use scv2_sketches.LoadShare.Sketches.{
  load_share, load_share_v3, load_share_13kw, load_share_5kw, load_share_baja, heartbeat_default,
  heartbeat_baja,
}

pub record Program : Type 0 where
  pub power_up : ℕ → State
  pub isr : State → State
  pub commands : List ℕ → State → State
  pub set_up : State → State
  pub pass : Input → State → Option (State × Output)

abbrev pub program : Sketch → Frame → Program
program k heartbeat = record {
  power_up = initial heartbeat;
  isr = mcp2515_isr;
  commands = read_commands;
  set_up = setup;
  pass = loop k uno;
}

abbrev pub load_share_program : Program
load_share_program = program load_share heartbeat_default

abbrev pub load_share_v3_program : Program
load_share_v3_program = program load_share_v3 heartbeat_default

abbrev pub load_share_13kw_program : Program
load_share_13kw_program = program load_share_13kw heartbeat_default

abbrev pub load_share_5kw_program : Program
load_share_5kw_program = program load_share_5kw heartbeat_default

abbrev pub load_share_baja_program : Program
load_share_baja_program = program load_share_baja heartbeat_baja
