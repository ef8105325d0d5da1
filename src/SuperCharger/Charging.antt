-- ===== src/SuperCharger/Charging.antt =====
-- `setChargingAmps` of libraries/DIGINOW_SUPERCHARGER/SC.h, part by part in its order.
use scv2_sketches.Prelude.{
  ℕ, ◌+◌, ◌-◌, ◌*◌, ◌/◌, ◌==◌, ltb, leb, if◌then◌else◌, ◌>>=◌, Bool, not, ◌&&◌, ◌||◌, Option, none,
  some, List, [], ◌∷◌, ◌++◌, take, u16, u32, sub32, sext, slt32, slt16,
}
use scv2_sketches.SuperCharger.Tables.{Row, temp_table, temp_cutback_count, over_temp_table}
use scv2_sketches.SuperCharger.State.{Setup, Charger, output_volts_min, max_12v_watts}

-- The slow ramp: `watts` of the last cycle, raised while it is below the target.
unfoldable pub ramp : Charger → ℕ
ramp s = if ltb s.watts s.max_station_watts then u32 (s.watts + s.ramp_rate) else s.watts

-- The local `maxAmps` of a row: its share of the C rate, at most 1 C unless `CPlus` allows more.
unfoldable pub max_amps : Charger → ℕ → ℕ
max_amps s rate =
    let amps = u32 (rate * s.c_rate) / 10 in
    if ltb s.c_plus 1 && slt32 s.c_rate amps then s.c_rate else amps

-- The local `maxWatts` of a row: at most the station's.
unfoldable pub max_watts : Charger → ℕ → ℕ
max_watts s rate =
    let watts = u32 (max_amps s rate * sext s.volts) in
    if ltb s.max_station_watts watts then s.max_station_watts else watts

-- `if (watts > maxWatts) watts = maxWatts`, where the row applies.
unfoldable pub cut : Bool → ℕ → ℕ → ℕ
cut applies limit watts = if applies && ltb limit watts then limit else watts

-- The loop over the voltage rows has both a guarded and an unguarded cut.
unfoldable pub volts_cutback : Charger → List Row → ℕ → ℕ
volts_cutback s [] watts = watts
volts_cutback s ((volts, rate) ∷ rows) watts =
    let limit = max_watts s rate in
    let guarded = cut (slt32 volts (sext s.volts)) limit watts in
    volts_cutback s rows (if ltb limit guarded then limit else guarded)

-- The loop over the rows for a cold battery.
unfoldable pub cold_cutback : Charger → List Row → ℕ → ℕ
cold_cutback s [] watts = watts
cold_cutback s ((temp, rate) ∷ rows) watts =
    cold_cutback s rows (cut (not (slt16 temp s.low_temp)) (max_watts s rate) watts)

-- The loop over the rows for a hot battery.
unfoldable pub hot_cutback : Charger → List Row → ℕ → ℕ
hot_cutback s [] watts = watts
hot_cutback s ((temp, rate) ∷ rows) watts =
    hot_cutback s rows (cut (not (slt16 s.high_temp temp)) (max_watts s rate) watts)

-- The charge slows down at the end voltage.
unfoldable pub slow_at_end : Charger → ℕ → ℕ
slow_at_end s watts =
    if leb s.output_volts_end (sext s.volts)
    then (if ltb (u32 (s.ramp_rate * 3)) watts then watts - u32 (s.ramp_rate * 3) else 0)
    else watts

-- It stops outside the voltage range.
unfoldable pub stop_out_of_range : Setup → Charger → ℕ → ℕ
stop_out_of_range k s watts =
    if slt32 k.volts_max (sext s.volts) || slt32 (sext s.volts) output_volts_min then 0 else watts

-- What is above the station's watts is set below them by what the 12 V supplies take.
unfoldable pub station_limit : Charger → ℕ → ℕ
station_limit s watts =
    if ltb s.max_station_watts watts
    then sub32 s.max_station_watts (u32 (max_12v_watts * s.charger_count))
    else watts

-- The rows that the loop for a cold battery reads: those of the table, and what lies behind it.
unfoldable pub temp_rows : Setup → List Row
temp_rows k = take temp_cutback_count (temp_table ++ k.past_end)

-- The three loops.
unfoldable pub cutbacks : Setup → Charger → ℕ → ℕ
cutbacks k s watts =
    hot_cutback s over_temp_table
      (cold_cutback s (temp_rows k) (volts_cutback s k.volts_table watts))

-- The new value of `watts`.
unfoldable pub charge_watts : Setup → Charger → ℕ
charge_watts k s = station_limit s (stop_out_of_range k s (slow_at_end s (cutbacks k s (ramp s))))

-- `watts / volts`, as an `unsigned short`. A division by zero is undefined.
unfoldable pub total_amps : Charger → ℕ → Option ℕ
total_amps s watts = if s.volts == 0 then none else some (u16 (watts / sext s.volts))

-- At most 1 C unless `CPlus` allows more.
unfoldable pub limit_to_c_rate : Charger → ℕ → ℕ
limit_to_c_rate s amps = if ltb s.c_plus 1 && slt32 s.c_rate amps then u16 s.c_rate else amps

-- `chargingAmps / chargerCount`, an `unsigned short` by an `int`.
unfoldable pub share : Charger → ℕ → Option ℕ
share s amps =
    if s.charger_count == 0
    then none
    else some (
        if ltb s.charger_count 0x8000_0000
        then amps / s.charger_count
        else u16 (sub32 0 (amps / (0x1_0000_0000 - s.charger_count))))

unfoldable pub set_charging_amps : Setup → Charger → Option Charger
set_charging_amps k s = do
  amps ← total_amps s (charge_watts k s)
  shared ← share s (limit_to_c_rate s amps)
  some (record s { watts = charge_watts k s; charging_amps = shared })
