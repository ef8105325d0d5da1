-- ===== src/Zero/Tests.antt =====
-- Runs of the decoders, tests and logger of libraries/ZERO_MOTORCYCLE, and instances of the theorems.
use scv2_sketches.Prelude.{true, false, [], ◌∷◌, ◌++◌, ◌≡◌, refl, Frame, arith}
use scv2_sketches.Zero.Network.{bms_cell_voltage}
use scv2_sketches.Zero.Predicates.{has_monolith_voltage}
use scv2_sketches.Zero.Decode.{voltage}
use scv2_sketches.Zero.Logger.{text, newline, log_raw}
use scv2_sketches.Zero.MessageTable.{body, log_raw_names}

-- 116.400 V in bytes 3 to 6, lowest byte first.
abbrev volts_frame : Frame
volts_frame = record { b0 = 1; b1 = 25; b2 = 20; b3 = 0xb0; b4 = 0xc6; b5 = 0x01; b6 = 0; b7 = 9 }

reads_voltage : voltage volts_frame ≡ 116400
unfolding voltage
reads_voltage = refl

classifies : has_monolith_voltage 0x388 ≡ true
unfolding has_monolith_voltage
classifies = refl

logs_unknown : log_raw false 2 (1 ∷ 2 ∷ []) 0x388 ≡ []
unfolding log_raw
logs_unknown = refl

-- The entry at place 14 of the table is BMS_CELL_VOLTAGE.
log_raw_names_example :
    (log_raw true 2 (1 ∷ 2 ∷ []) 0x388
      ≡ (text "-----------------------------" ∷ newline ∷ text "BMS_CELL_VOLTAGE" ∷ newline ∷ [])
        ++ body 2 (1 ∷ 2 ∷ []) 0x388)
    × (log_raw true 2 (1 ∷ 2 ∷ []) 0x7ff ≡ body 2 (1 ∷ 2 ∷ []) 0x7ff)
log_raw_names_example =
    log_raw_names 14 2 (1 ∷ 2 ∷ []) 0x7ff {m = bms_cell_voltage} refl (omega arith)
