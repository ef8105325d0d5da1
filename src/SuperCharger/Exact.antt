-- ===== src/SuperCharger/Exact.antt =====
-- `setChargingAmps` (libraries/DIGINOW_SUPERCHARGER/SC.h) against a specification in exact
-- arithmetic, without loops and machine words.
use scv2_sketches.Prelude.{
  ℕ, ◌+◌, ◌-◌, ◌*◌, ◌/◌, ◌≤◌, ◌<◌, min, ltb, leb, if◌then◌else◌, ◌||◌, List, [], ◌∷◌, ◌++◌, All,
  ◌≡◌, slt16,
}
use scv2_sketches.SuperCharger.Tables.{Row, over_temp_table}
use scv2_sketches.SuperCharger.State.{Setup, Charger, output_volts_min}
use scv2_sketches.SuperCharger.Charging.{temp_rows}
use scv2_sketches.SuperCharger.Cutback.Least.{least}
pub mod Rates
pub mod Cycle
pub mod Runs
pub mod Climb

-- The rates that hold in a cycle: of every voltage row, of the rows for a cold battery that are not
-- below the coldest cell and of those for a hot one that are not above the hottest cell.
abbrev pub volts_rates : List Row → List ℕ
volts_rates [] = []
volts_rates ((volts, rate) ∷ rows) = rate ∷ volts_rates rows

abbrev pub cold_rates : Charger → List Row → List ℕ
cold_rates s [] = []
cold_rates s ((temp, rate) ∷ rows) =
    if slt16 temp s.low_temp then cold_rates s rows else rate ∷ cold_rates s rows

abbrev pub hot_rates : Charger → List Row → List ℕ
hot_rates s [] = []
hot_rates s ((temp, rate) ∷ rows) =
    if slt16 s.high_temp temp then hot_rates s rows else rate ∷ hot_rates s rows

abbrev pub rates : Setup → Charger → List ℕ
rates k s = volts_rates k.volts_table ++ (cold_rates s (temp_rows k) ++ hot_rates s over_temp_table)

-- The largest rate of the tables, in tenths of 1 C.
abbrev pub top_rate : ℕ
top_rate = 30

-- The amps and the watts at a rate: at most 1 C unless 1C+ is on, at most the station's watts.
abbrev pub exact_amps : Charger → ℕ → ℕ
exact_amps s rate =
    if ltb s.c_plus 1 then min (rate * s.c_rate / 10) s.c_rate else rate * s.c_rate / 10

abbrev pub exact_limit : Charger → ℕ → ℕ
exact_limit s rate = min (exact_amps s rate * s.volts) s.max_station_watts

-- The watts of the cycle: a ramp step more than in the last one, at most what the lowest of the rates
-- allows, less three steps at the end voltage, and none outside the voltage range.
abbrev pub wanted : Charger → ℕ
wanted s = if ltb s.watts s.max_station_watts then s.watts + s.ramp_rate else s.watts

abbrev pub held : Setup → Charger → ℕ → ℕ
held k s watts =
    if ltb k.volts_max s.volts || ltb s.volts output_volts_min
    then 0
    else (if leb s.output_volts_end s.volts then watts - s.ramp_rate * 3 else watts)

abbrev pub exact_watts : Setup → Charger → ℕ
exact_watts k s = held k s (min (wanted s) (exact_limit s (least top_rate (rates k s))))

-- What each charger gets of them.
abbrev pub exact_share : Setup → Charger → ℕ
exact_share k s =
    let amps = exact_watts k s / s.volts in
    (if ltb s.c_plus 1 then min amps s.c_rate else amps) / s.charger_count

abbrev pub exact_cycle : Setup → Charger → Charger
exact_cycle k s = record s { watts = exact_watts k s; charging_amps = exact_share k s }

-- The tables that the specification is about: a voltage row, and no rate above 3 C.
abbrev pub HasRate : Row → Type 0
HasRate r = r.1 ≤ top_rate

pub record IsSetup (k : Setup) : Type 0 where
  pub row : Row
  pub rows : List Row
  pub volts_table : k.volts_table ≡ row ∷ rows
  pub volts_rates : All HasRate k.volts_table
  pub temp_rates : All HasRate (temp_rows k)
  pub volts_max_lt : k.volts_max < 0x8000

-- The states that it is about: the C rate is below 1638.4 A, and the battery is measured.
pub record IsCalm (s : Charger) : Type 0 where
  pub volts_gt : 0 < s.volts
  pub volts_lt : s.volts < 0x8000
  pub c_rate_lt : s.c_rate < 0x4000
  pub chargers : 0 < s.charger_count
  pub chargers_lt : s.charger_count < 0x8000_0000
  pub station_lt : s.max_station_watts < 0x8000_0000
  pub ramp_lt : s.ramp_rate < 0x2000_0000
  pub watts_lt : s.watts < 0x8000_0000
