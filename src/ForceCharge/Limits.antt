-- ===== src/ForceCharge/Limits.antt =====
-- What the two force charge sketches (basic_force_charge, basic_force_charge_TERRY) ask of the
-- chargers.
use scv2_sketches.Prelude.{
  ℕ, ◌*◌, ◌/◌, ◌≤◌, ◌<◌, ltb, if◌then◌else◌, ◌&&◌, Bool, true, false, some, List, [], ◌∷◌, ◌≡◌, ◌⊎◌,
  inl, inr, refl, Frame, Bool-cases, high_byte, low_byte, u16, arith,
}
use native.Mathlib.Nat.{le_trans, mul-le-mul_right, div-mul-le_self}
use scv2_sketches.Scv2
use scv2_sketches.ForceCharge.Pass.{
  Constants, Force, Reading, station, frame, frames, jamps, limit_current, limit_station, announce,
  loop,
}

-- The reading of the frames of a pass.
abbrev pub reading : List Frame → Reading
reading fs = frames fs (record { charger_count = 0; volts = 0; amps = 0 })

-- Amps were read from some charger only.
counted :
    (fs : List Frame) (r : Reading)
    → (0 < r.charger_count) ⊎ (r.amps ≡ 0)
    → (0 < (frames fs r).charger_count) ⊎ ((frames fs r).amps ≡ 0)
unfolding frames frame
counted [] r h = h
counted (f ∷ fs) r h = counted fs (frame f r) (ground arith)

-- No amps at the station's voltage while the chargers report no volts.
jamps-zero : (r : Reading) → r.volts ≡ 0 → jamps r ≡ 0
unfolding jamps
jamps-zero r h = ground arith

-- The least of the two limits, as the code computes it.
abbrev shared : Constants → Reading → ℕ
shared k r = if ltb k.output_current_max r.amps then k.output_current_max / r.charger_count else 0

abbrev final : Constants → ℕ → Reading → ℕ
final k most r =
    let at_station = u16 (most * 208) / r.volts / 2 in
    if ltb most (jamps r) && ltb at_station (shared k r) then at_station else shared k r

limit_current-some :
    (k : Constants) (r : Reading)
    → (0 < r.charger_count) ⊎ (r.amps ≡ 0)
    → limit_current k r 0 ≡ some (shared k r)
unfolding limit_current
limit_current-some k r h = ground arith

limit_station-some :
    (k : Constants) (most : ℕ) (r : Reading)
    → limit_station most r (shared k r) ≡ some (final k most r)
unfolding limit_station
limit_station-some k most r = ground (arith, jamps-zero r)

-- The station's amps.
abbrev pub most : Constants → Bool → ℕ
most k bad = if bad then k.station_current_bad else k.station_current_good

never : (n : ℕ) → ltb n n ≡ false
never n = ground arith

loop-result :
    (k : Constants) (bad : Bool) (fs : List Frame) (s : Force)
    → s.flag_recv ≡ true
    → loop k bad fs s
      ≡ some (record s {
        max_jamps = most k bad;
        heartbeat = announce k (reading fs) (final k (most k bad) (reading fs)) s.heartbeat;
        flag_recv = false;
      })
unfolding loop station
loop-result k bad fs s h =
    let r = reading fs in
    simp
      (
        h,
        never (most k bad),
        limit_current-some k r (counted fs _ (inr refl)),
        limit_station-some k (most k bad) r,
      )
      refl

-- What the chargers that gave a reading find in the heartbeat.
abbrev pub Asked : Constants → Reading → Frame → Frame → Type 0
Asked k r before after =
    ((k.output_voltage_max < r.volts) × (Scv2.amps after ≡ 0))
    ⊎ ((r.volts ≤ k.output_voltage_max) × (after ≡ before))
    ⊎ ((r.volts ≤ k.output_voltage_max)
        × (k.output_current_max < r.amps)
        × (Scv2.amps after * r.charger_count ≤ k.output_current_max * 10))

final-le : (k : Constants) (most : ℕ) (r : Reading) → final k most r ≤ shared k r
final-le k most r = ground arith

quotient_le : (n m : ℕ) → n / m ≤ n
quotient_le n m = grind arith

shared-le :
    (k : Constants) (r : Reading)
    → (shared k r * r.charger_count ≤ k.output_current_max) × (shared k r ≤ k.output_current_max)
shared-le k r = ground (
  arith,
  div-mul-le_self k.output_current_max r.charger_count,
  quotient_le k.output_current_max r.charger_count,
)

-- The tenths of an amp that are written are those that are read.
tenths :
    (x : ℕ) (f : Frame)
    → x ≤ 6553
    → Scv2.amps (record f { b2 = high_byte (u16 (x * 10)); b3 = low_byte (u16 (x * 10)) }) ≡ x * 10
unfolding Scv2.amps
tenths x f h = omega arith

no_amps : (f : Frame) → f.b2 ≡ 0 → f.b3 ≡ 0 → Scv2.amps f ≡ 0
unfolding Scv2.amps
no_amps f h l = omega arith

scaled : (x n m : ℕ) → x * n ≤ m → x * 10 * n ≤ m * 10
scaled x n m h = grind arith

announce-Asked :
    (k : Constants) (x : ℕ) (r : Reading) (before : Frame)
    → x * r.charger_count ≤ k.output_current_max
    → x ≤ 6553
    → (x ≡ 0) ⊎ (k.output_current_max < r.amps)
    → Asked k r before (announce k r x before)
unfolding announce
announce-Asked k x r before n l h = elim (Bool-cases (ltb k.output_voltage_max r.volts)) [
  | inl e ↦ simp e (inl (ground arith, no_amps _ refl refl))
  | inr e ↦ elim (Bool-cases (ltb 0 x)) [
    | inl p ↦
        simp (e, p)
          (inr (
            inr (
              ground arith,
              ground arith,
              rw (tenths x before l) (scaled x r.charger_count k.output_current_max n),
            )))
    | inr p ↦ simp (e, p) (inr (inl (ground arith, refl)))
  ]
]

final-Asked :
    (k : Constants) (m : ℕ) (r : Reading) (before : Frame)
    → k.output_current_max ≤ 6553
    → Asked k r before (announce k r (final k m r) before)
final-Asked k m r before c =
    announce-Asked k (final k m r) r before
      (le_trans (mul-le-mul_right r.charger_count (final-le k m r)) (shared-le k r).0)
      (omega (arith, final-le k m r, shared-le k r, c)) (ground arith)

-- A pass in which a frame came in is defined, whatever the chargers report, and takes the flag back.
-- If their voltage is above the sketch's maximum they find 0 A in the heartbeat. If not, either they
-- find what they found before, or they report more than the maximum current together and all of them
-- are asked for that current at most. It holds for any constants whose maximum current in tenths of
-- an amp fits in two bytes.
pub force_within_limits :
    (k : Constants) (bad : Bool) (fs : List Frame) (s : Force)
    → k.output_current_max ≤ 6553
    → s.flag_recv ≡ true
    → (t : Force) × (loop k bad fs s ≡ some t)
      × (t.flag_recv ≡ false)
      × Asked k (reading fs) s.heartbeat t.heartbeat
force_within_limits k bad fs s c h =
    (_, loop-result k bad fs s h, refl, final-Asked k (most k bad) (reading fs) s.heartbeat c)
