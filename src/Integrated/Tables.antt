-- ===== src/Integrated/Tables.antt =====
-- The cutback tables of v2.6/v2.6.ino: a threshold and ten times a share of the C rate.
use scv2_sketches.Prelude.{ℕ, List, [], ◌∷◌}

abbrev pub Row : Type 0
Row = ℕ × ℕ

abbrev pub volts_table : List Row
volts_table =
    (900, 30)
    ∷ (980, 28)
    ∷ (1000, 25)
    ∷ (1010, 23)
    ∷ (1020, 20)
    ∷ (1060, 18)
    ∷ (1100, 13)
    ∷ (1140, 10)
    ∷ (1150, 7)
    ∷ (1160, 6)
    ∷ []

-- `TEMP_CUTBACK_COUNT` rows are read, but the arrays have 28.
abbrev pub temp_cutback_count : ℕ
temp_cutback_count = 32

abbrev pub temp_table : List Row
temp_table =
    (0, 2)
    ∷ (1, 3)
    ∷ (5, 4)
    ∷ (6, 5)
    ∷ (8, 6)
    ∷ (9, 7)
    ∷ (10, 8)
    ∷ (12, 9)
    ∷ (14, 10)
    ∷ (16, 11)
    ∷ (18, 12)
    ∷ (20, 13)
    ∷ (21, 14)
    ∷ (22, 15)
    ∷ (23, 16)
    ∷ (24, 17)
    ∷ (25, 18)
    ∷ (26, 19)
    ∷ (27, 20)
    ∷ (28, 22)
    ∷ (29, 23)
    ∷ (30, 24)
    ∷ (31, 25)
    ∷ (33, 26)
    ∷ (34, 27)
    ∷ (35, 28)
    ∷ (37, 29)
    ∷ (40, 30)
    ∷ []

abbrev pub over_temp_table : List Row
over_temp_table = (50, 25) ∷ (60, 10) ∷ (70, 3) ∷ (75, 0) ∷ []
