-- ===== src/Lib.antt =====
-- The Arduino sketches that control the SCv2 battery chargers of an electric motorcycle: a model of
-- the load share sketches, of the controllers v2.x and v3 and of the libraries they are made of, and
-- theorems about the power that they ask for.
--
-- Parts and how they interact
--   The load share sketches (loadShare, LoadShare-v3, 13kw_load_share, 5.7kw_load_share,
--   BAJA-13kw_load_share, 5.7kw_load_share-SERIAL) are one program with different constants. A pass
--   of `loop` reads commands from the serial port; if the CAN interrupt has set a flag it reads a
--   frame from each charger, computes the watts, divides them into amps for each charger, and writes
--   the amps in the heartbeat that every pass sends.
--   The sketch v3 (v3) runs two buses. `bikeLoop` (v3/ZERO_BIKE.h) reads the motorcycle's frames
--   through libraries/ZERO_MOTORCYCLE into globals of libraries/DIGINOW_SUPERCHARGER/SC.h; every so
--   many passes `superChargerLoop` of SC.h reads the chargers and computes the amps, and
--   `superCharge` sends the heartbeat. A phone writes settings over BLE (v3/ZERO_V3_BLE.h).
--   Zero_charge_monitoring sits between the motorcycle and the chargers on both buses: it counts the
--   chargers in a window of passes, and at its end asks them for the volts that close the gap between
--   the two voltages.
--   The sketch v2.6 (v2.6) is the older controller of the same kind, in one file: it keeps its
--   settings in the EEPROM and takes them from a Bluetooth line, and it has the cutback tables and
--   `setChargingAmps` in it. v2.5, DEBUG_2.5 and 13kw_force are its older versions.
--
-- Files
--   Prelude: library names, tests on numbers, lists, machine words, and the 8 bytes of a CAN frame.
--   Zero: libraries/ZERO_MOTORCYCLE. Network is the table of messages of Network.h, Predicates
--     the `has…` methods, Decode the decoders of ZERO.cpp over the unions of unions.h, Logger is
--     `logRaw`. Old is the table and the logger of BKUP-ZERO_MOTORCYCLE. Proofs: MessageTable,
--     FrameLayout, CobIds, SameLog.
--   Scv2: libraries/SCv2, how a charger reads a frame.
--   SuperCharger: libraries/DIGINOW_SUPERCHARGER. Tables has the cutback tables, State the globals,
--     Charging is `setChargingAmps`, one function for each block, Heartbeat has `superChargerLoop`
--     and `superCharge`. Proofs: Cutback (what the three loops compute), Sharing (what a call
--     grants), Taper (the end of a charge), Frames (what the chargers read), Exact (a specification
--     without loops and machine words, and that the code computes it).
--   LoadShare: State has the constants and the globals, Cycle the control cycle of `loop`, Loop the
--     interrupt, `readCommands`, `setup` and the rest of `loop`, Sketches the constants of each
--     sketch, Programs each sketch as a whole, Serial `loop` of 5.7kw_load_share-SERIAL. Proofs:
--     Division, Bounds, Reach, Grants, Station, Calm, Climb, Order, Wraps, Commands, SerialLoop.
--   Integrated: v2.6/v2.6.ino. Tables has the cutback tables, State the globals and the EEPROM,
--     Charging is `setChargingAmps`, Settings has `readCommands` and `setup`, Buses the loops over
--     frames in `loop`, Main the rest of `loop`, Waiting the passes without a heartbeat of any sketch
--     of the family. Proofs: Restart, Tolerance, Limits, Grants, Branches, Station, Rhythm, Delay,
--     Waiting, Rounds, Kept, Reaction, Sane, Reach (from power up), Exact (a specification in exact
--     arithmetic), FirstRun (a run up to the first heartbeat).
--   Older: v2.5/v2.5.ino, DEBUG_2.5/DEBUG_2.5.ino, 13kw_force/13kw_force.ino. Variants has what sets
--     them apart, Charging and Main what differs from v2.6, Programs the functions of each. Proofs:
--     Grants, Branches, Station, Sane, Reach (from power up), Rounds, Exact (the cycle in
--     exact arithmetic), FirstRun.
--   V3: State has the globals, BikeLoop is `bikeLoop`, Phone is v3/ZERO_V3_BLE.h, Main is v3/v3.ino
--     with the line of v3/debug.h, Traffic the frames of ordinary size. Proofs: InStep, Frames,
--     Within, Rhythm, Rounds, Branches, Station, Sane, Reach (from power up), Startup, Writes,
--     FirstRun.
--   ForceCharge: basic_force_charge/basic_force_charge.ino and its other version
--     basic_force_charge_TERRY/basic_force_charge_TERRY.ino, a fixed current for one station. Pass is
--     the interrupt and `loop`. Proofs: Limits.
--   Monitor: Zero_charge_monitoring/Zero_charge_monitoring.ino. State has the globals, Command the
--     decisions and commands, Pass `setup` and `loop`. Proofs: Handlers, Fresh, Asked, Sends, Undefined,
--     Counts, Windows, Settle, Kept.
--   Small: the sketches of a few lines. Sound is sound/sound.ino, Baud is
--     serialCanSetup/serialCanSetup.ino with sketch_may03a/sketch_may03a.ino, Contactor is
--     ZeroContactor/ZeroContactor.ino, Dash is ZeroDashVoltage/ZeroDashVoltage.ino, Printer has the
--     sketches that print frames (read_charger, sketch_may02a, basic_zero_can, ZeroLogger), Heartbeats
--     those that send a fixed one, Difference is test/test.ino. Proofs: Pitch, Scan, Latest.
--   Each part has a module Tests with runs at concrete inputs.
--
-- How code corresponds to definitions
--   The globals of a sketch are a record and each function is a function on it; a global keeps its
--   name in snake case. Numbers are naturals; an `unsigned short` is kept below 2 ^ 16 and an
--   `unsigned long` below 2 ^ 32 by the remainders written at each assignment, and signed values are
--   their bit patterns, compared by `slt16` and `slt32`. Where the code would divide by zero the
--   model returns `none`. The load share sketches run on an Arduino Uno, where the product of two
--   shorts is made in 16 bits, and the model has the 32-bit board next to it; v2.6 and v3 run on an
--   Arduino MKR, the older versions on a board with 16-bit `int`s. Frames that wait on a bus, lines
--   on the serial port and writes of a phone are lists, so every loop is a recursion on a list and
--   needs no fuel; passes in a row are recursion on the list of what each finds.
--
-- Parameters
--   The rows behind the two temperature arrays (`past_end`), which SC.h and v2.x read; the bytes that
--   the temperature decoders and the charging status leave unwritten; the conversions for the dash
--   made in floating point (`Floats`, `DashFloats`, `Conversions`); the CAN and BLE libraries, whose
--   results are the inputs of a pass. Each is quantified over in the theorems, and given a value in
--   the tests. The values in the EEPROM are fields of a sketch's state: a read gives the value that
--   was written last, in v2.6 a restart finds the values as of the last `commit`, and writes are taken
--   to succeed.
--
-- Not modelled
--   The setup of the CAN chips, serial ports and BLE advertising; FLASH_STORAGE.h, which nothing
--   includes and which uses names that are declared nowhere; the copies of other projects under
--   libraries.
pub mod Prelude
pub mod Zero
pub mod Scv2
pub mod SuperCharger
pub mod LoadShare
pub mod Integrated
pub mod Older
pub mod ForceCharge
pub mod Monitor
pub mod Small
pub mod V3
