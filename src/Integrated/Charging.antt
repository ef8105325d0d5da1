-- ===== src/Integrated/Charging.antt =====
-- `setChargingAmps` of v2.6/v2.6.ino, one function for each block.
use scv2_sketches.Prelude.{
  ℕ, ◌+◌, ◌-◌, ◌*◌, ◌/◌, ◌==◌, ltb, if◌then◌else◌, ◌>>=◌, Bool, ◌&&◌, ◌||◌, Option, none, some,
  List, [], ◌∷◌, ◌++◌, take, u16, u32, sub32, sext, slt32, sdiv32,
}
use scv2_sketches.Integrated.Tables.{
  Row, volts_table, temp_cutback_count, temp_table, over_temp_table,
}
use scv2_sketches.Integrated.State.{output_volts_max, output_volts_min, Controller}

-- A battery whose voltage is above the one known raises it.
unfoldable pub raise_volts : ℕ → Controller → Controller
raise_volts pack s =
    if slt32 (sext s.volts) (sdiv32 pack 100) then record s { volts = u16 (sdiv32 pack 100) } else s

unfoldable pub pack_c_rate : Controller → Controller
pack_c_rate s =
    if slt32 0 s.monolith_ah || slt32 0 s.power_tank_ah
    then record s { c_rate = u32 (u32 (s.monolith_ah + s.power_tank_ah) * 10) }
    else s

unfoldable pub ramp : Controller → Controller
ramp s =
    if ltb s.watts s.max_station_watts then record s { watts = u32 (s.watts + s.ramp_rate) } else s

unfoldable pub max_amps : Controller → ℕ → ℕ
max_amps s rate =
    let amps = u32 (rate * s.c_rate) / 10 in
    if ltb s.c_plus 1 && slt32 s.c_rate amps then s.c_rate else amps

unfoldable pub max_watts : Controller → ℕ → ℕ
max_watts s rate =
    let watts = u32 (max_amps s rate * sext s.volts) in
    if ltb s.max_station_watts watts then s.max_station_watts else watts

-- When a row of each table applies.
unfoldable pub is_full : Controller → ℕ → Bool
is_full s volts = slt32 volts (sext s.volts)

unfoldable pub is_cold : Controller → ℕ → Bool
is_cold s temp =
    slt32 s.monolith_min_temp (sext temp)
    || (slt32 0 s.power_tank_ah && slt32 s.power_tank_min_temp (sext temp))

unfoldable pub is_hot : Controller → ℕ → Bool
is_hot s temp =
    slt32 (sext temp) s.monolith_max_temp
    || (slt32 0 s.power_tank_ah && slt32 (sext temp) s.power_tank_max_temp)

-- A loop over a table.
unfoldable pub cutback : (ℕ → Bool) → Controller → List Row → ℕ → ℕ
cutback applies s [] watts = watts
cutback applies s ((threshold, rate) ∷ rows) watts =
    let limit = max_watts s rate in
    cutback applies s rows (if applies threshold && ltb limit watts then limit else watts)

-- The rows that the loop for a cold battery reads. `past_end` is the memory behind the arrays.
unfoldable pub temp_rows : List Row → List Row
temp_rows past_end = take temp_cutback_count (temp_table ++ past_end)

unfoldable pub cutbacks : List Row → Controller → ℕ → ℕ
cutbacks past_end s watts =
    cutback (is_hot s) s over_temp_table
      (cutback (is_cold s) s (temp_rows past_end) (cutback (is_full s) s volts_table watts))

unfoldable pub slow_at_end : Controller → ℕ → ℕ
slow_at_end s watts =
    if ltb s.output_volts_end (sext s.volts) || slt32 output_volts_max (sext s.volts)
    then (if ltb (u32 (s.ramp_rate * 3)) watts then watts - u32 (s.ramp_rate * 3) else 0)
    else watts

unfoldable pub stop_below : Controller → ℕ → ℕ
stop_below s watts = if slt32 output_volts_min (sext s.volts) then watts else 0

unfoldable pub station_limit : Controller → ℕ → ℕ
station_limit s watts = if ltb s.max_station_watts watts then s.max_station_watts else watts

-- The new value of `watts`.
unfoldable pub charge_watts : List Row → Controller → ℕ
charge_watts past_end s =
    station_limit s (stop_below s (slow_at_end s (cutbacks past_end s s.watts)))

-- `(AH - 2) * 10`, where a pack draws more than 1 C.
unfoldable pub over_current : ℕ → ℕ → ℕ → ℕ
over_current ah amps charging =
    if slt32 0 ah && slt32 ah amps then u16 (sub32 ah 2 * 10) else charging

unfoldable pub limit_amps : Controller → ℕ → ℕ
limit_amps s amps =
    let at_most = if slt32 s.c_rate amps then u16 s.c_rate else amps in
    if ltb s.c_plus 1
    then over_current s.power_tank_ah s.power_tank_amps
        (over_current s.monolith_ah s.monolith_amps at_most)
    else amps

-- The state before the division: the voltage, the C rate and the ramp.
unfoldable pub prepare : Controller → Controller
prepare s = ramp (pack_c_rate (raise_volts s.power_tank_volts (raise_volts s.monolith_volts s)))

-- `chargingAmps = chargingAmps / chargerCount`, an `unsigned short` by an `int`.
unfoldable pub share : ℕ → ℕ → Option ℕ
share amps count =
    if count == 0
    then none
    else some (
        if ltb count 0x8000_0000
        then amps / count
        else u16 (sub32 0 (amps / (0x1_0000_0000 - count))))

-- The division of `watts` by `volts`, the limits on the amps, and their division.
unfoldable pub grant : ℕ → Controller → Option Controller
grant watts s =
    if s.volts == 0
    then none
    else (let amps = limit_amps s (u16 (watts / sext s.volts)) in
        do
          shared ← share amps s.charger_count
          some (record s { watts = watts; bike_amps = amps; charging_amps = shared }))

unfoldable pub set_charging_amps : List Row → Controller → Option Controller
set_charging_amps past_end s = grant (charge_watts past_end (prepare s)) (prepare s)
