-- ===== src/SuperCharger/Cutback/Least.antt =====
-- The cutback loops compute a minimum.
use scv2_sketches.Prelude.{
  ℕ, ◌≤◌, min, ltb, if◌then◌else◌, Bool-cases, true, false, Bool, List, [], ◌∷◌, ◌++◌, inl, inr,
  ◌≡◌, refl, ◌∙◌, get_elem?, zero, suc, some, All, arith,
}
use scv2_sketches.Prelude.{slt16}
use scv2_sketches.SuperCharger.Tables.{Row, over_temp_table}
use scv2_sketches.SuperCharger.State.{Setup, Charger}
use scv2_sketches.SuperCharger.Charging.{
  max_watts, cut, volts_cutback, cold_cutback, hot_cutback, temp_rows, cutbacks,
}

-- The least of some watts and of the limits in a list.
abbrev pub least : ℕ → List ℕ → ℕ
least watts [] = watts
least watts (limit ∷ limits) = least (min watts limit) limits

pub least-le : (watts : ℕ) (limits : List ℕ) → least watts limits ≤ watts
least-le watts [] = omega arith
least-le watts (limit ∷ limits) = omega (arith, least-le (min watts limit) limits)

pub least-le-get_elem? :
    (watts : ℕ) (limits : List ℕ) (i : ℕ) {limit : ℕ}
    → get_elem? limits i ≡ some limit
    → least watts limits ≤ limit
least-le-get_elem? watts [] i e = absurd (cc)
least-le-get_elem? watts (x ∷ limits) zero e = ground (arith, least-le (min watts x) limits)
least-le-get_elem? watts (x ∷ limits) (suc i) e = least-le-get_elem? (min watts x) limits i e

pub le-least :
    (x watts : ℕ) (limits : List ℕ)
    → x ≤ watts
    → All (λ limit. x ≤ limit) limits
    → x ≤ least watts limits
le-least x watts [] h a = h
le-least x watts (limit ∷ limits) h a = le-least x (min watts limit) limits (omega arith) a.1

pub least-append : (watts : ℕ) (xs ys : List ℕ) → least watts (xs ++ ys) ≡ least (least watts xs) ys
least-append watts [] ys = refl
least-append watts (x ∷ xs) ys = least-append (min watts x) xs ys

-- The limits of the voltage rows: every row counts, whatever the voltage.
abbrev pub volts_limits : Charger → List Row → List ℕ
volts_limits s [] = []
volts_limits s ((volts, rate) ∷ rows) = max_watts s rate ∷ volts_limits s rows

-- The limits of the rows whose temperature is not below that of the coldest cell.
abbrev pub cold_limits : Charger → List Row → List ℕ
cold_limits s [] = []
cold_limits s ((temp, rate) ∷ rows) =
    if slt16 temp s.low_temp then cold_limits s rows else max_watts s rate ∷ cold_limits s rows

-- The limits of the rows whose temperature is not above that of the hottest cell.
abbrev pub hot_limits : Charger → List Row → List ℕ
hot_limits s [] = []
hot_limits s ((temp, rate) ∷ rows) =
    if slt16 s.high_temp temp then hot_limits s rows else max_watts s rate ∷ hot_limits s rows

pub cut-true : (limit watts : ℕ) → cut true limit watts ≡ min watts limit
unfolding cut
cut-true limit watts = ground arith

pub cut-false : (limit watts : ℕ) → cut false limit watts ≡ watts
unfolding cut
cut-false limit watts = refl

-- The guarded cut of a voltage row changes nothing that the unguarded one behind it does not.
pub cut_twice :
    (b : Bool) (limit watts : ℕ)
    → (if ltb limit (cut b limit watts) then limit else cut b limit watts) ≡ min watts limit
unfolding cut
cut_twice true limit watts = ground arith
cut_twice false limit watts = ground arith

pub volts_cutback-eq-least :
    (s : Charger) (rows : List Row) (watts : ℕ)
    → volts_cutback s rows watts ≡ least watts (volts_limits s rows)
unfolding volts_cutback
volts_cutback-eq-least s [] watts = refl
volts_cutback-eq-least s ((volts, rate) ∷ rows) watts =
    volts_cutback-eq-least s rows _ ∙ rw (cut_twice _ (max_watts s rate) watts)

pub cold_cutback-eq-least :
    (s : Charger) (rows : List Row) (watts : ℕ)
    → cold_cutback s rows watts ≡ least watts (cold_limits s rows)
unfolding cold_cutback
cold_cutback-eq-least s [] watts = refl
cold_cutback-eq-least s ((temp, rate) ∷ rows) watts = elim (Bool-cases (slt16 temp s.low_temp)) [
  | inl e ↦ rw e (cold_cutback-eq-least s rows _ ∙ rw (cut-false (max_watts s rate) watts))
  | inr e ↦ rw e (cold_cutback-eq-least s rows _ ∙ rw (cut-true (max_watts s rate) watts))
]

pub hot_cutback-eq-least :
    (s : Charger) (rows : List Row) (watts : ℕ)
    → hot_cutback s rows watts ≡ least watts (hot_limits s rows)
unfolding hot_cutback
hot_cutback-eq-least s [] watts = refl
hot_cutback-eq-least s ((temp, rate) ∷ rows) watts = elim (Bool-cases (slt16 s.high_temp temp)) [
  | inl e ↦ rw e (hot_cutback-eq-least s rows _ ∙ rw (cut-false (max_watts s rate) watts))
  | inr e ↦ rw e (hot_cutback-eq-least s rows _ ∙ rw (cut-true (max_watts s rate) watts))
]

-- All limits of a cycle.
abbrev pub limits : Setup → Charger → List ℕ
limits k s =
    volts_limits s k.volts_table ++ (cold_limits s (temp_rows k) ++ hot_limits s over_temp_table)

-- The three loops, with their guards and in their order, give the least of the watts and of the
-- limits: of every voltage row, of every row read for a cold battery whose temperature is at or
-- above the coldest cell's, and of every row for a hot one at or below the hottest cell's.
pub cutbacks-eq-least :
    (k : Setup) (s : Charger) (watts : ℕ) → cutbacks k s watts ≡ least watts (limits k s)
unfolding cutbacks
cutbacks-eq-least k s watts =
    hot_cutback-eq-least s over_temp_table _
    ∙ rw (least-append, least-append, cold_cutback-eq-least, volts_cutback-eq-least)
