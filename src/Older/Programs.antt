-- ===== src/Older/Programs.antt =====
-- The functions of each older sketch, as instances of the common ones.
use scv2_sketches.Prelude.{Option, List}
use scv2_sketches.V3.BikeLoop.{Floats}
use scv2_sketches.Integrated.Tables.{Row}
use scv2_sketches.Integrated.State.{Controller}
use scv2_sketches.Integrated.Settings.{Command}
use scv2_sketches.Integrated.Main.{Input, Output}
use scv2_sketches.Older.Variants.{v2_5, debug_2_5, force_13kw}
use scv2_sketches.Older.Charging.{set_charging_amps}
use scv2_sketches.Older.Main.{read_commands, loop}

abbrev pub v2_5_charging : List Row → Controller → Option Controller
v2_5_charging = set_charging_amps v2_5

abbrev pub v2_5_commands : List Command → Controller → Controller
v2_5_commands = read_commands v2_5

abbrev pub v2_5_loop : List Row → Floats → Input → Controller → Option (Controller × Output)
v2_5_loop = loop v2_5

-- The lines that the debugging version prints while it starts are not part of the model.
abbrev pub debug_2_5_charging : List Row → Controller → Option Controller
debug_2_5_charging = set_charging_amps debug_2_5

abbrev pub debug_2_5_commands : List Command → Controller → Controller
debug_2_5_commands = read_commands debug_2_5

abbrev pub debug_2_5_loop : List Row → Floats → Input → Controller → Option (Controller × Output)
debug_2_5_loop = loop debug_2_5

abbrev pub force_13kw_charging : List Row → Controller → Option Controller
force_13kw_charging = set_charging_amps force_13kw

abbrev pub force_13kw_commands : List Command → Controller → Controller
force_13kw_commands = read_commands force_13kw

abbrev pub force_13kw_loop : List Row → Floats → Input → Controller → Option (Controller × Output)
force_13kw_loop = loop force_13kw
