-- ===== src/SuperCharger/Tables.antt =====
-- The cutback tables: libraries/DIGINOW_SUPERCHARGER/TEMP_CUTBACKS.h, VOLTAGE_TABLE_ZERO.h and
-- VOLTAGE_TABLE_0_BASIC.h. A row is a threshold with the C rate times ten that it sets. The
-- source keeps the two columns in two arrays and reads them at the same index.
use scv2_sketches.Prelude.{ℕ, List, [], ◌∷◌}

abbrev pub Row : Type 0
Row = ℕ × ℕ

-- The 28 rows that the arrays hold. The loop makes TEMP_CUTBACK_COUNT = 32 rounds.
abbrev pub temp_table : List Row
temp_table =
    (0, 1)
    ∷ (1, 2)
    ∷ (5, 3)
    ∷ (6, 4)
    ∷ (8, 5)
    ∷ (9, 6)
    ∷ (10, 7)
    ∷ (12, 8)
    ∷ (14, 10)
    ∷ (16, 11)
    ∷ (18, 12)
    ∷ (20, 13)
    ∷ (21, 14)
    ∷ (22, 15)
    ∷ (23, 16)
    ∷ (24, 17)
    ∷ (25, 18)
    ∷ (26, 19)
    ∷ (27, 20)
    ∷ (28, 22)
    ∷ (29, 23)
    ∷ (30, 24)
    ∷ (31, 25)
    ∷ (33, 26)
    ∷ (34, 27)
    ∷ (35, 28)
    ∷ (37, 29)
    ∷ (40, 30)
    ∷ []

abbrev pub temp_cutback_count : ℕ
temp_cutback_count = 32

abbrev pub over_temp_table : List Row
over_temp_table = (50, 25) ∷ (60, 10) ∷ (70, 3) ∷ (75, 0) ∷ []

abbrev pub zero_volts_max : ℕ
zero_volts_max = 1164

abbrev pub zero_volts_table : List Row
zero_volts_table =
    (900, 30)
    ∷ (980, 28)
    ∷ (1000, 25)
    ∷ (1010, 23)
    ∷ (1020, 20)
    ∷ (1060, 18)
    ∷ (1100, 13)
    ∷ (1140, 7)
    ∷ (1150, 4)
    ∷ (1160, 2)
    ∷ []

abbrev pub basic_volts_max : ℕ
basic_volts_max = 1400

abbrev pub basic_volts_table : List Row
basic_volts_table = (200, 30) ∷ (1320, 1) ∷ []
