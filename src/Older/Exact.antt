-- ===== src/Older/Exact.antt =====
-- A control cycle of v2.5/v2.5.ino and its variants without 1C+ and without an over-current, in exact
-- arithmetic.
use scv2_sketches.Prelude.{ℕ, ◌-◌, ◌*◌, ltb, if◌then◌else◌, Bool, ◌&&◌, ◌||◌, List}
use scv2_sketches.Integrated.Tables.{Row}
use scv2_sketches.Integrated.State.{output_volts_max, Controller}
use scv2_sketches.SuperCharger.Cutback.Least.{least}
use scv2_sketches.Integrated.Exact.{known_volts, wanted, all_limits, granting}
use scv2_sketches.Older.Variants.{Variant, max_12v_watts}
pub mod Cycle
pub mod Runs

-- Above which voltage a variant takes three ramp steps off.
abbrev pub is_above : Variant → Controller → ℕ → Bool
is_above k s volts =
    if k.slows_at_max then ltb output_volts_max volts else ltb s.output_volts_end volts

-- Where a variant stops, if it does.
abbrev pub is_out : Variant → ℕ → Bool
is_out k volts = k.stops && (ltb output_volts_max volts || ltb volts k.output_volts_min)

-- More than the station's watts become these less those of the 12 V supplies.
abbrev pub held : Variant → Controller → ℕ → ℕ → ℕ
held k s volts watts =
    let slowed = if is_above k s volts then watts - s.ramp_rate * 3 else watts in
    let kept = if is_out k volts then 0 else slowed in
    if ltb s.max_station_watts kept
    then s.max_station_watts - max_12v_watts * s.charger_count
    else kept

abbrev pub exact_watts : Variant → List Row → Controller → ℕ
exact_watts k past_end s = held k s (known_volts s) (least (wanted s) (all_limits past_end s))

abbrev pub exact_cycle : Variant → List Row → Controller → Controller
exact_cycle k past_end s = granting (exact_watts k past_end s) s
