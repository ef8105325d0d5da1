-- ===== src/SuperCharger/Cutback/Bounds.antt =====
-- What the minimum of `Cutback.Least` means for the station's watts, the voltage rows and the
-- reads behind the temperature arrays.
use scv2_sketches.Prelude.{
  ℕ, zero, suc, ◌*◌, ◌/◌, ◌≤◌, ◌<◌, List, [], ◌∷◌, ◌++◌, some, get_elem?, take, ◌≡◌, refl, ◌∙◌,
  sext, arith,
}
use scv2_sketches.Prelude.{ap, All, not, slt16}
use scv2_sketches.SuperCharger.Tables.{Row, temp_table, over_temp_table}
use scv2_sketches.SuperCharger.State.{Setup, Charger}
use scv2_sketches.SuperCharger.Charging.{
  max_amps, max_watts, cut, cold_cutback, temp_rows, cutbacks,
}
use scv2_sketches.SuperCharger.Cutback.Least.{
  least, least-le, least-le-get_elem?, least-append, volts_limits, cold_limits, hot_limits, limits,
  cutbacks-eq-least,
}

pub max_watts-le-station : (s : Charger) (rate : ℕ) → max_watts s rate ≤ s.max_station_watts
unfolding max_watts
max_watts-le-station s rate = ground arith

pub cutbacks-le : (k : Setup) (s : Charger) (watts : ℕ) → cutbacks k s watts ≤ watts
cutbacks-le k s watts = rw cutbacks-eq-least (least-le watts (limits k s))

volts_limits-get_elem? :
    (s : Charger) (rows : List Row) (i volts rate : ℕ)
    → get_elem? rows i ≡ some (volts, rate)
    → get_elem? (volts_limits s rows) i ≡ some (max_watts s rate)
volts_limits-get_elem? s [] i volts rate e = absurd (cc)
volts_limits-get_elem? s (r ∷ rows) zero volts rate e = ground arith
volts_limits-get_elem? s (r ∷ rows) (suc i) volts rate e =
    volts_limits-get_elem? s rows i volts rate e

-- Every voltage row bounds the watts, whatever the voltage.
pub cutbacks-le-row :
    (k : Setup) (s : Charger) (watts i volts rate : ℕ)
    → get_elem? k.volts_table i ≡ some (volts, rate)
    → cutbacks k s watts ≤ max_watts s rate
cutbacks-le-row k s watts i volts rate e =
    rw (cutbacks-eq-least, least-append)
      (omega (
        arith,
        least-le (least watts (volts_limits s k.volts_table))
            (cold_limits s (temp_rows k) ++ hot_limits s over_temp_table),
        least-le-get_elem? watts (volts_limits s k.volts_table) i
            (volts_limits-get_elem? s k.volts_table i volts rate e),
      ))

-- The amps of a row are at most that tenth of the C rate, where the C rate is not negative and the
-- product does not wrap.
pub max_amps-le :
    (s : Charger) (rate : ℕ)
    → s.c_rate < 0x8000_0000
    → rate * s.c_rate < 0x1_0000_0000
    → max_amps s rate ≤ rate * s.c_rate / 10
unfolding max_amps
max_amps-le s rate c w = ground arith

pub max_watts-le : (s : Charger) (rate : ℕ) → max_watts s rate ≤ max_amps s rate * sext s.volts
unfolding max_watts
max_watts-le s rate = ground arith

cut_skip :
    (temp low limit watts : ℕ)
    → temp < low
    → low < 0x8000
    → cut (not (slt16 temp low)) limit watts ≡ watts
unfolding cut
cut_skip temp low limit watts h l = ground arith

cold_cutback-append :
    (s : Charger) (rows rest : List Row) (watts : ℕ)
    → All (λ (r : Row). r.0 < s.low_temp) rows
    → s.low_temp < 0x8000
    → cold_cutback s (rows ++ rest) watts ≡ cold_cutback s rest watts
unfolding cold_cutback
cold_cutback-append s [] rest watts a l = refl
cold_cutback-append s ((temp, rate) ∷ rows) rest watts a l =
    cold_cutback-append s rows rest _ a.1 l
    ∙ ap (cold_cutback s rest) (cut_skip temp s.low_temp (max_watts s rate) watts a.0 l)

-- With every cell above 40 degrees no row of the table for a cold battery applies: what the loop
-- does is decided by the first four rows of the memory behind the table alone.
pub cold_cutback_warm :
    (k : Setup) (s : Charger) (watts : ℕ)
    → 40 < s.low_temp
    → s.low_temp < 0x8000
    → cold_cutback s (temp_rows k) watts ≡ cold_cutback s (take 4 k.past_end) watts
unfolding temp_rows
cold_cutback_warm k s watts h l =
    cold_cutback-append s temp_table (take 4 k.past_end) watts (omega arith) l
