-- ===== src/Older/Charging.antt =====
-- `setChargingAmps` of v2.5/v2.5.ino and its variants: the blocks that are not those of v2.6.
use scv2_sketches.Prelude.{
  ℕ, ◌-◌, ◌*◌, ◌/◌, ◌==◌, ltb, if◌then◌else◌, Bool, ◌&&◌, ◌||◌, Option, none, some, List, u16, u32,
  sub32, sext, slt16,
}
use scv2_sketches.Integrated.Tables.{Row, volts_table, over_temp_table}
use scv2_sketches.Integrated.State.{output_volts_max, Controller}
use scv2_sketches.Integrated.Charging.{is_cold, is_hot, cutback, temp_rows, limit_amps, prepare}
use scv2_sketches.Older.Variants.{Variant, max_12v_watts}

-- A voltage row applies above its threshold; both sides are compared as `unsigned int`s.
unfoldable pub is_full : Controller → ℕ → Bool
is_full s volts = ltb volts s.volts

unfoldable pub cutbacks : List Row → Controller → ℕ → ℕ
cutbacks past_end s watts =
    cutback (is_hot s) s over_temp_table
      (cutback (is_cold s) s (temp_rows past_end) (cutback (is_full s) s volts_table watts))

unfoldable pub ends : Variant → Controller → Bool
ends k s =
    if k.slows_at_max then slt16 output_volts_max s.volts else ltb s.output_volts_end (sext s.volts)

unfoldable pub slow_at_end : Variant → Controller → ℕ → ℕ
slow_at_end k s watts =
    if ends k s
    then (if ltb (u32 (s.ramp_rate * 3)) watts then watts - u32 (s.ramp_rate * 3) else 0)
    else watts

unfoldable pub stop_out_of_range : Variant → Controller → ℕ → ℕ
stop_out_of_range k s watts =
    if k.stops && (slt16 output_volts_max s.volts || slt16 s.volts k.output_volts_min)
    then 0
    else watts

-- `MAX_12V_WATTS*chargerCount` is a product of two `int`s.
unfoldable pub station_limit : Controller → ℕ → ℕ
station_limit s watts =
    if ltb s.max_station_watts watts
    then sub32 s.max_station_watts (sext (u16 (max_12v_watts * s.charger_count)))
    else watts

-- The new value of `watts`.
unfoldable pub charge_watts : Variant → List Row → Controller → ℕ
charge_watts k past_end s =
    station_limit s (stop_out_of_range k s (slow_at_end k s (cutbacks past_end s s.watts)))

-- The divisions. `chargingAmps / chargerCount` is one of `unsigned int`s.
unfoldable pub grant : ℕ → Controller → Option Controller
grant watts s =
    let amps = limit_amps s (u16 (watts / sext s.volts)) in
    if s.volts == 0
    then none
    else (if s.charger_count == 0
        then none
        else some
            (record s { watts = watts; bike_amps = amps; charging_amps = amps / s.charger_count }))

unfoldable pub set_charging_amps : Variant → List Row → Controller → Option Controller
set_charging_amps k past_end s = grant (charge_watts k past_end (prepare s)) (prepare s)
