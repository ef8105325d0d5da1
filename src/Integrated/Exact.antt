-- ===== src/Integrated/Exact.antt =====
-- A control cycle of v2.6/v2.6.ino without 1C+ and without an over-current, in exact arithmetic.
use scv2_sketches.Prelude.{
  ℕ, ◌+◌, ◌-◌, ◌*◌, ◌/◌, ◌≤◌, ◌==◌, min, ltb, if◌then◌else◌, Bool, ◌||◌, List, [], ◌∷◌, ◌++◌,
}
use scv2_sketches.Integrated.Tables.{Row, volts_table, over_temp_table}
use scv2_sketches.Integrated.State.{output_volts_max, output_volts_min, Controller}
use scv2_sketches.Integrated.Charging.{is_cold, is_hot, temp_rows}
use scv2_sketches.SuperCharger.Cutback.Least.{least}
pub mod Words
pub mod Cycle
pub mod Runs

-- The voltage is the largest of the three that are known, in tenths.
abbrev pub larger : ℕ → ℕ → ℕ
larger a b = if ltb a b then b else a

abbrev pub known_volts : Controller → ℕ
known_volts s = larger (larger s.volts (s.monolith_volts / 100)) (s.power_tank_volts / 100)

-- 1 C in tenths of an amp: by the capacities of the packs, if one is known.
abbrev pub known_rate : Controller → ℕ
known_rate s =
    if s.monolith_ah + s.power_tank_ah == 0
    then s.c_rate
    else (s.monolith_ah + s.power_tank_ah) * 10

abbrev pub wanted : Controller → ℕ
wanted s = if ltb s.watts s.max_station_watts then s.watts + s.ramp_rate else s.watts

-- What a row allows: its tenths of 1 C, at most 1 C, at the voltage, and at most the station's watts.
abbrev pub row_limit : Controller → ℕ → ℕ
row_limit s rate =
    min (min (rate * known_rate s / 10) (known_rate s) * known_volts s) s.max_station_watts

-- The limits of the rows whose threshold passes a test.
abbrev pub row_limits : Controller → (ℕ → Bool) → List Row → List ℕ
row_limits s applies [] = []
row_limits s applies ((threshold, rate) ∷ rows) =
    if applies threshold
    then row_limit s rate ∷ row_limits s applies rows
    else row_limits s applies rows

-- Voltage rows below the voltage, and the rows for cold and hot packs.
abbrev pub all_limits : List Row → Controller → List ℕ
all_limits past_end s =
    row_limits s (λ v. ltb v (known_volts s)) volts_table
    ++ (row_limits s (is_cold s) (temp_rows past_end) ++ row_limits s (is_hot s) over_temp_table)

-- At most what all these allow, less three ramp steps above the end voltage, none at 50.0 V or less,
-- and at most the station's watts.
abbrev pub held : Controller → ℕ → ℕ → ℕ
held s volts watts =
    let slowed =
      if ltb s.output_volts_end volts || ltb output_volts_max volts
      then watts - s.ramp_rate * 3
      else watts in
    min (if ltb output_volts_min volts then slowed else 0) s.max_station_watts

abbrev pub exact_watts : List Row → Controller → ℕ
exact_watts past_end s = held s (known_volts s) (least (wanted s) (all_limits past_end s))

-- A cycle that sets `watts`.
abbrev pub exact_amps : ℕ → Controller → ℕ
exact_amps watts s = min (watts / known_volts s) (known_rate s)

abbrev pub granting : ℕ → Controller → Controller
granting watts s = record s {
  volts = known_volts s;
  c_rate = known_rate s;
  watts = watts;
  bike_amps = exact_amps watts s;
  charging_amps = exact_amps watts s / s.charger_count;
}

abbrev pub exact_cycle : List Row → Controller → Controller
exact_cycle past_end s = granting (exact_watts past_end s) s

-- A row that sets at most 3 C.
abbrev pub HasRate : Row → Type 0
HasRate r = r.1 ≤ 30
