-- ===== src/Integrated/Limits.antt =====
-- What a call of `setChargingAmps` of v2.6/v2.6.ino grants.
use scv2_sketches.Prelude.{
  ℕ, ◌/◌, ◌<◌, if◌then◌else◌, min, Bool, Bool-cases, inl, inr, some, List, [], ◌∷◌, ◌++◌, ◌≡◌, refl,
  ◌∙◌, ap, u16, sext, arith,
}
use scv2_sketches.SuperCharger.Cutback.Least.{least, least-append}
use scv2_sketches.Integrated.Tables.{Row, volts_table, over_temp_table}
use scv2_sketches.Integrated.State.{Controller}
use scv2_sketches.Integrated.Charging.{
  max_watts, is_full, is_cold, is_hot, cutback, temp_rows, cutbacks, limit_amps, share, grant,
}

-- The limits of the rows that apply.
abbrev pub limits : (ℕ → Bool) → Controller → List Row → List ℕ
limits applies s [] = []
limits applies s ((threshold, rate) ∷ rows) =
    if applies threshold then max_watts s rate ∷ limits applies s rows else limits applies s rows

cutback-eq-least :
    (applies : ℕ → Bool) (s : Controller) (rows : List Row) (watts : ℕ)
    → cutback applies s rows watts ≡ least watts (limits applies s rows)
unfolding cutback
cutback-eq-least applies s [] watts = refl
cutback-eq-least applies s ((threshold, rate) ∷ rows) watts =
    elim (Bool-cases (applies threshold)) [
      | inl e ↦ simp e (
          ap (cutback applies s rows) (ground arith)
          ∙ cutback-eq-least applies s rows (min watts (max_watts s rate)))
      | inr e ↦ simp e (cutback-eq-least applies s rows watts)
    ]

-- The three loops give the least of the watts and of the limits of the rows that apply.
pub three_loops-least :
    (full : ℕ → Bool) (past_end : List Row) (s : Controller) (watts : ℕ)
    → cutback
        (is_hot s)
        s
        over_temp_table
        (cutback (is_cold s) s (temp_rows past_end) (cutback full s volts_table watts))
      ≡ least watts (
          limits full s volts_table
          ++ (limits (is_cold s) s (temp_rows past_end) ++ limits (is_hot s) s over_temp_table))
three_loops-least full past_end s watts =
    cutback-eq-least (is_hot s) s over_temp_table _
    ∙ rw (least-append, least-append, cutback-eq-least, cutback-eq-least)

-- The voltage rows apply below the voltage, cold rows above the temperature of a pack's coldest cell,
-- and hot rows below that of a pack's hottest cell. The power tank counts when its capacity is known.
pub cutbacks-least :
    (past_end : List Row) (s : Controller) (watts : ℕ)
    → cutbacks past_end s watts
      ≡ least watts (
          limits (is_full s) s volts_table
          ++ (limits (is_cold s) s (temp_rows past_end) ++ limits (is_hot s) s over_temp_table))
unfolding cutbacks
cutbacks-least past_end s watts = three_loops-least (is_full s) past_end s watts

-- The result of a call.
abbrev pub amps_of : Controller → ℕ → ℕ
amps_of s watts = limit_amps s (u16 (watts / sext s.volts))

pub grant-some :
    (watts : ℕ) (s : Controller) {t : Controller}
    → s.charger_count < 0x8000_0000
    → grant watts s ≡ some t
    → t ≡ record s {
      watts = watts;
      bike_amps = amps_of s watts;
      charging_amps = amps_of s watts / s.charger_count;
    }
unfolding grant share
grant-some watts s c e = ground arith
