-- ===== src/SuperCharger/Exact/Rates.antt =====
-- The limits of a cycle of SC.h are those of its rates, and the least limit is that of the lowest
-- rate.
use scv2_sketches.Prelude.{
  ℕ, ◌≤◌, ◌<◌, min, List, [], ◌∷◌, ◌++◌, map, All, Bool-cases, inl, inr, ◌≡◌, refl, ◌∙◌, ap, sym,
  subst, slt16, arith,
}
use mathlib.Core.List.{map-append}
use native.Mathlib.Decide.{dec_le}
use native.Mathlib.Nat.{min-eq_left, min-eq_right, mul-le-mul, le_refl, le_of_lt, mul-le-mul_right}
use scv2_sketches.SuperCharger.Tables.{Row, over_temp_table}
use scv2_sketches.SuperCharger.State.{Setup, Charger}
use scv2_sketches.SuperCharger.Charging.{max_amps, max_watts, temp_rows}
use scv2_sketches.SuperCharger.Cutback.Least.{least, volts_limits, cold_limits, hot_limits, limits}
use scv2_sketches.SuperCharger.Sharing.{sext_id}
use scv2_sketches.SuperCharger.Exact.{
  volts_rates, cold_rates, hot_rates, rates, top_rate, exact_amps, exact_limit, HasRate, IsSetup,
  IsCalm,
}

volts_limits-map :
    (s : Charger) (rows : List Row) → volts_limits s rows ≡ map (max_watts s) (volts_rates rows)
volts_limits-map s [] = refl
volts_limits-map s ((volts, rate) ∷ rows) =
    ap (λ zs. max_watts s rate ∷ zs) (volts_limits-map s rows)

cold_limits-map :
    (s : Charger) (rows : List Row) → cold_limits s rows ≡ map (max_watts s) (cold_rates s rows)
cold_limits-map s [] = refl
cold_limits-map s ((temp, rate) ∷ rows) = elim (Bool-cases (slt16 temp s.low_temp)) [
  | inl e ↦ rw e (cold_limits-map s rows)
  | inr e ↦ rw e (ap (λ zs. max_watts s rate ∷ zs) (cold_limits-map s rows))
]

hot_limits-map :
    (s : Charger) (rows : List Row) → hot_limits s rows ≡ map (max_watts s) (hot_rates s rows)
hot_limits-map s [] = refl
hot_limits-map s ((temp, rate) ∷ rows) = elim (Bool-cases (slt16 s.high_temp temp)) [
  | inl e ↦ rw e (hot_limits-map s rows)
  | inr e ↦ rw e (ap (λ zs. max_watts s rate ∷ zs) (hot_limits-map s rows))
]

limits-map : (k : Setup) (s : Charger) → limits k s ≡ map (max_watts s) (rates k s)
limits-map k s = rw (map-append, map-append, volts_limits-map, cold_limits-map, hot_limits-map) refl

-- All rates are those of rows.
abbrev IsRate : ℕ → Type 0
IsRate rate = rate ≤ top_rate

All-append : (xs ys : List ℕ) → All IsRate xs → All IsRate ys → All IsRate (xs ++ ys)
All-append [] ys a b = b
All-append (x ∷ xs) ys a b = (a.0, All-append xs ys (a.1) b)

volts_rates-IsRate : (rows : List Row) → All HasRate rows → All IsRate (volts_rates rows)
volts_rates-IsRate [] a = tt
volts_rates-IsRate (r ∷ rows) a = (a.0, volts_rates-IsRate rows (a.1))

cold_rates-IsRate :
    (s : Charger) (rows : List Row) → All HasRate rows → All IsRate (cold_rates s rows)
cold_rates-IsRate s [] a = tt
cold_rates-IsRate s (r ∷ rows) a = elim (Bool-cases (slt16 (r.0) s.low_temp)) [
  | inl e ↦ rw e (cold_rates-IsRate s rows (a.1))
  | inr e ↦ rw e (a.0, cold_rates-IsRate s rows (a.1))
]

hot_rates-IsRate :
    (s : Charger) (rows : List Row) → All HasRate rows → All IsRate (hot_rates s rows)
hot_rates-IsRate s [] a = tt
hot_rates-IsRate s (r ∷ rows) a = elim (Bool-cases (slt16 s.high_temp (r.0))) [
  | inl e ↦ rw e (hot_rates-IsRate s rows (a.1))
  | inr e ↦ rw e (a.0, hot_rates-IsRate s rows (a.1))
]

rates-IsRate : (k : Setup) (s : Charger) → IsSetup k → All IsRate (rates k s)
rates-IsRate k s h = All-append _ _ (volts_rates-IsRate k.volts_table h.volts_rates) (
    All-append _ _ (cold_rates-IsRate s (temp_rows k) h.temp_rates)
      (hot_rates-IsRate s over_temp_table (omega arith)))

min_assoc : (w x y : ℕ) → min (min w x) y ≡ min w (min x y)
min_assoc w x y = omega arith

-- A larger rate allows as much.
module _ (f : ℕ → ℕ) (mono : (x y : ℕ) → x ≤ y → f x ≤ f y) where
  min_mono : (x y : ℕ) → min (f x) (f y) ≡ f (min x y)
  min_mono x y = elim (dec_le x y) [
    | yes h ↦ min-eq_left (mono x y h) ∙ ap f (sym (min-eq_left h))
    | no h ↦
        min-eq_right (mono y x (omega (arith, h))) ∙ ap f (sym (min-eq_right (omega (arith, h))))
  ]

  least-map : (w x : ℕ) (xs : List ℕ) → least (min w (f x)) (map f xs) ≡ min w (f (least x xs))
  least-map w x [] = refl
  least-map w x (y ∷ ys) =
      ap (λ z. least z (map f ys)) (min_assoc w (f x) (f y) ∙ ap (min w) (min_mono x y))
      ∙ least-map w (min x y) ys

-- The machine words of a row are exact.
max_amps-exact :
    (s : Charger) (rate : ℕ) → IsCalm s → rate ≤ top_rate → max_amps s rate ≡ exact_amps s rate
unfolding max_amps
max_amps-exact s rate h r =
    let n = mul-le-mul r (le_refl s.c_rate) in let c = h.c_rate_lt in ground arith

pub exact_amps-lt :
    (s : Charger) (rate : ℕ) → IsCalm s → rate ≤ top_rate → exact_amps s rate < 0xc000
exact_amps-lt s rate h r =
    let n = mul-le-mul r (le_refl s.c_rate) in let c = h.c_rate_lt in ground arith

max_watts-exact :
    (s : Charger) (rate : ℕ) → IsCalm s → rate ≤ top_rate → max_watts s rate ≡ exact_limit s rate
unfolding max_watts
max_watts-exact s rate h r =
    let a = exact_amps-lt s rate h r in
    let n = mul-le-mul (le_of_lt a) (le_of_lt (h.volts_lt)) in
    rw (max_amps-exact s rate h r, sext_id s.volts (h.volts_lt)) (ground arith)

exact_amps_mono : (s : Charger) (x y : ℕ) → x ≤ y → exact_amps s x ≤ exact_amps s y
exact_amps_mono s x y h = let n = mul-le-mul_right s.c_rate h in ground arith

exact_limit_mono : (s : Charger) (x y : ℕ) → x ≤ y → exact_limit s x ≤ exact_limit s y
exact_limit_mono s x y h = let n = mul-le-mul_right s.volts (exact_amps_mono s x y h) in omega arith

map-exact :
    (s : Charger) (xs : List ℕ)
    → IsCalm s
    → All IsRate xs
    → map (max_watts s) xs ≡ map (exact_limit s) xs
map-exact s [] h a = refl
map-exact s (x ∷ xs) h a = rw (max_watts-exact s x h (a.0), map-exact s xs h (a.1)) refl

least-cons :
    (s : Charger) (w x : ℕ) (xs : List ℕ)
    → IsCalm s
    → All IsRate (x ∷ xs)
    → least w (map (max_watts s) (x ∷ xs)) ≡ min w (exact_limit s (least top_rate (x ∷ xs)))
least-cons s w x xs h a =
    ap (least w) (map-exact s (x ∷ xs) h a)
    ∙ least-map (exact_limit s) (exact_limit_mono s) w x xs
    ∙ ap (λ z. min w (exact_limit s (least z xs))) (sym (min-eq_right (a.0)))

-- All rows together allow what the lowest rate allows.
pub least-exact :
    (k : Setup) (s : Charger) (w : ℕ)
    → IsSetup k
    → IsCalm s
    → least w (limits k s) ≡ min w (exact_limit s (least top_rate (rates k s)))
least-exact k s w c h =
    let e =
      ap (λ t. volts_rates t ++ (cold_rates s (temp_rows k) ++ hot_rates s over_temp_table))
        (c.volts_table) in
    let rest =
      volts_rates (c.rows) ++ (cold_rates s (temp_rows k) ++ hot_rates s over_temp_table) in
    ap (least w) (limits-map k s)
    ∙ rw e (least-cons s w (c.row.1) rest h (subst (All IsRate) e (rates-IsRate k s c)))
