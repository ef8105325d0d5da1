-- ===== src/SuperCharger/Tests.antt =====
-- Runs of SC.h (libraries/DIGINOW_SUPERCHARGER), and instances of the theorems.
use scv2_sketches.Prelude.{
  Frame, ◌+◌, ◌*◌, ◌/◌, ◌%◌, ◌≤◌, none, some, [], ◌∷◌, take, ◌≡◌, ◌↔◌, refl, arith,
}
use scv2_sketches.Scv2
use scv2_sketches.SuperCharger.State.{Setup, Charger, initial, zero_setup}
use scv2_sketches.SuperCharger.Charging.{
  ramp, max_amps, max_watts, cut, volts_cutback, cold_cutback, hot_cutback, slow_at_end,
  stop_out_of_range, station_limit, temp_rows, cutbacks, charge_watts, total_amps, limit_to_c_rate,
  share, set_charging_amps,
}
use scv2_sketches.SuperCharger.Heartbeat.{receive, super_charger_loop, super_charge}
use scv2_sketches.SuperCharger.Taper.{cycles, taper_reaches_zero, fifth_of_c_rate}
use scv2_sketches.SuperCharger.Exact.{IsSetup, IsCalm}
use scv2_sketches.SuperCharger.Exact.Runs.{rounds, exact_rounds, rounds_exact}
use scv2_sketches.SuperCharger.Exact.Climb.{climbs_to_allowance}
use scv2_sketches.SuperCharger.Frames.{heartbeat_fields}

abbrev zero : Setup
zero = zero_setup []

-- 110.0 V, three chargers, a warm battery and 3000.00 W in the last cycle.
abbrev warm : Charger
warm = record (initial zero) {
  low_temp = 45;
  high_temp = 48;
  charger_count = 3;
  watts = 300000;
  volts = 1100;
}

-- 19.2 A at 110.0 V, shared by three.
abbrev warm_after : Charger
warm_after = record warm { watts = 211200; charging_amps = 64 }

runs : set_charging_amps zero warm ≡ some warm_after
unfolding ramp max_amps max_watts cut volts_cutback cold_cutback hot_cutback slow_at_end
    stop_out_of_range station_limit temp_rows cutbacks charge_watts total_amps limit_to_c_rate share
    set_charging_amps
runs = refl

-- The first control cycle after power up, with no frame from a charger: undefined.
first_cycle : super_charger_loop zero [] (initial zero) ≡ none
unfolding super_charger_loop receive set_charging_amps total_amps
first_cycle = refl

-- The charger reads 3588.4 V where the sketch means 116.4 V.
swapped : Scv2.voltage (super_charge (initial zero)).heartbeat ≡ 0x8c04
unfolding super_charge Scv2.voltage
swapped = refl

-- So a row 99 with rate 0 that happens to lie behind the table stops the charge.
stopped_from_behind : cold_cutback warm (take 4 ((99, 0) ∷ [])) 305000 ≡ 0
unfolding cold_cutback cut max_watts max_amps
stopped_from_behind = refl

-- At the end voltage 3000.00 W are gone in thirty cycles.
taper_reaches_zero_example :
    (t : Charger) × (cycles zero 30 (record warm { volts = 1164 }) ≡ some t) × (t.watts ≡ 0)
taper_reaches_zero_example =
    taper_reaches_zero zero 9 1160 2 refl 30 (record warm { volts = 1164 }) (omega arith)
      (omega arith)

fifth_of_c_rate_example : 64 * 3 ≤ 960 / 5
fifth_of_c_rate_example =
    fifth_of_c_rate [] warm {t = warm_after} (omega arith) (omega arith) (omega arith) (omega arith)
      runs

heartbeat_fields_example :
    (Scv2.amps (super_charge warm_after).heartbeat ≡ 64)
    × (Scv2.voltage (super_charge warm_after).heartbeat ≡ 1164 % 256 * 256 + 1164 / 256)
    × ((Scv2.voltage (super_charge warm_after).heartbeat ≡ 1164) ↔ (1164 % 256 ≡ 1164 / 256))
heartbeat_fields_example = heartbeat_fields warm_after (omega arith) (omega arith)

zero-IsSetup : IsSetup zero
unfolding temp_rows
zero-IsSetup = record {
  row = (900, 30);
  rows =
      (980, 28)
      ∷ (1000, 25)
      ∷ (1010, 23)
      ∷ (1020, 20)
      ∷ (1060, 18)
      ∷ (1100, 13)
      ∷ (1140, 7)
      ∷ (1150, 4)
      ∷ (1160, 2)
      ∷ [];
  volts_table = refl;
  volts_rates = omega arith;
  temp_rates = omega arith;
  volts_max_lt = omega arith;
}

-- 2000.00 W in the last cycle.
abbrev rising : Charger
rising = record warm { watts = 200000 }

rising-IsCalm : IsCalm rising
rising-IsCalm = omega arith

-- A frame with 109.0 V, and rounds without one.
abbrev report : Frame
report = record { b0 = 4; b1 = 0x42; b2 = 0; b3 = 0; b4 = 0; b5 = 0; b6 = 0; b7 = 0 }

rounds_exact_example :
    rounds zero ((report ∷ []) ∷ [] ∷ []) rising
    ≡ some (exact_rounds zero ((report ∷ []) ∷ [] ∷ []) rising)
rounds_exact_example =
    rounds_exact zero ((report ∷ []) ∷ [] ∷ []) rising zero-IsSetup rising-IsCalm (omega arith)

-- 0.2 C of 96 A at 110.0 V.
climbs_to_allowance_example : (t : Charger) × (cycles zero 3 rising ≡ some t) × (t.watts ≡ 211200)
unfolding temp_rows
climbs_to_allowance_example = climbs_to_allowance zero 3 rising zero-IsSetup rising-IsCalm (record {
  below_end = omega arith;
  below_max = omega arith;
  above_min = omega arith;
  watts_le = omega arith;
})
