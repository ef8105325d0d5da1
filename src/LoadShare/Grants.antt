-- ===== src/LoadShare/Grants.antt =====
-- What a control cycle of a load share sketch grants to the chargers, and what they read in the
-- heartbeat, by the decoder of libraries/SCv2.
use scv2_sketches.Prelude.{
  ℕ, ◌+◌, ◌*◌, ◌/◌, ◌≤◌, ◌<◌, ltb, if◌then◌else◌, ◌&&◌, some, ap, subst, ◌⊎◌, inl, inr, List, [],
  ◌∷◌, ◌≡◌, refl, ◌∙◌, Frame, word, u16, arith,
}
use native.Mathlib.Nat.{le_trans, mul-le-mul_right, div-mul-le_self}
use scv2_sketches.Scv2
use scv2_sketches.LoadShare.State.{Row, Board, Sketch, State}
use scv2_sketches.LoadShare.Cycle.{
  start, receive, average, stop_above, cut_row, cutback, stop_below, decide, announce, cycle,
}
use scv2_sketches.LoadShare.Division.{
  granted, cycle_defined, heard, capped, cut_back, capped-SameChargers, cut_back-SameChargers,
  decide-SameChargers,
}

-- A division first by the volts, then by the chargers, then cut to 16 bits, multiplied back.
share-mul-le : (w v c : ℕ) → u16 (w / v / c) * c * v ≤ w
share-mul-le w v c =
    le_trans
      (mul-le-mul_right v
        (le_trans (mul-le-mul_right c (mod_le (w / v / c))) (div-mul-le_self (w / v) c)))
      (div-mul-le_self w v)
  where
    mod_le : (x : ℕ) → u16 x ≤ x
    mod_le x = omega arith

granted_within :
    (d : State)
    → 0 < d.watts
    → ((announce (granted d)).charging_amps
          * (announce (granted d)).charger_count
          * (announce (granted d)).volts
        ≤ (announce (granted d)).watts)
      × (Scv2.amps (announce (granted d)).heartbeat ≡ (announce (granted d)).charging_amps)
unfolding announce Scv2.amps
granted_within d h = ground (arith, share-mul-le d.watts d.volts d.charger_count)

cycle-result :
    (k : Sketch) (board : Board) (frames : List Frame) (s : State) {t : State}
    → 0 < k.output_volts_min
    → cycle k board frames s ≡ some t
    → announce (granted (decide k board frames s)) ≡ t
cycle-result k board frames s h e = cc (cycle_defined k board frames s h)

watts-announce : (d : State) → (announce (granted d)).watts ≡ d.watts
unfolding announce
watts-announce d = ground arith

-- After a cycle that left watts, the amps that the chargers were granted together, at the voltage
-- that the cycle found, are at most these watts; and each charger reads in the heartbeat just the
-- amps that it was granted.
pub grants_within_watts :
    (k : Sketch) (board : Board) (frames : List Frame) (s : State) {t : State}
    → 0 < k.output_volts_min
    → cycle k board frames s ≡ some t
    → 0 < t.watts
    → (t.charging_amps * t.charger_count * t.volts ≤ t.watts)
      × (Scv2.amps t.heartbeat ≡ t.charging_amps)
grants_within_watts k board frames s {t} h e w =
    let d = decide k board frames s in
    let r = cycle-result k board frames s h e in
    subst
      (λ u.
        (u.charging_amps * u.charger_count * u.volts ≤ u.watts)
        × (Scv2.amps u.heartbeat ≡ u.charging_amps))
      r (granted_within d (omega (arith, watts-announce d, ap (λ (u : State). u.watts) r)))

receive-charging_amps :
    (frames : List Frame) (s : State) → (receive frames s).charging_amps ≡ s.charging_amps
unfolding receive
receive-charging_amps [] s = refl
receive-charging_amps (f ∷ frames) s = receive-charging_amps frames (record s {
  charger_count = s.charger_count + 1;
  volts = u16 (s.volts + word f.b0 f.b1);
  amps = u16 (s.amps + word f.b2 f.b3);
})

charging_amps-heard :
    (frames : List Frame) (s : State) → (heard frames s).charging_amps ≡ s.charging_amps
unfolding average start
charging_amps-heard frames s = ground (arith, receive-charging_amps frames (start s))

zero_skips :
    (s t : State) (volts limit : ℕ)
    → s.watts ≡ 0
    → (if ltb volts s.volts && ltb limit s.watts then t else s) ≡ s
zero_skips s t volts limit h = ground arith

-- No cutback row applies to zero watts.
cutback-zero : (k : Sketch) (rows : List Row) (s : State) → s.watts ≡ 0 → cutback k rows s ≡ s
unfolding cutback
cutback-zero k [] s h = refl
cutback-zero k ((volts, limit) ∷ rows) s h =
    ap (cutback k rows) (zero_skips s (cut_row k limit s) volts limit h) ∙ cutback-zero k rows s h

watts-stop_above :
    (k : Sketch) (s : State) → k.output_volts_max < s.volts → (stop_above k s).watts ≡ 0
unfolding stop_above
watts-stop_above k s h = ground arith

watts-stop_below :
    (k : Sketch) (s : State)
    → (s.watts ≡ 0) ⊎ (s.volts < k.output_volts_min)
    → (stop_below k s).watts ≡ 0
unfolding stop_below
watts-stop_below k s h = ground arith

decide-stopped :
    (k : Sketch) (board : Board) (frames : List Frame) (s : State)
    → (k.output_volts_max < (heard frames s).volts) ⊎ ((heard frames s).volts < k.output_volts_min)
    → (decide k board frames s).watts ≡ 0
unfolding decide
decide-stopped k board frames s (inl h) =
    let x = capped k board frames s in
    let z = watts-stop_above k x (omega (arith, (capped-SameChargers k board frames s).volts)) in
    watts-stop_below k _
      (inl (ap (λ (u : State). u.watts) (cutback-zero k k.cutback (stop_above k x) z) ∙ z))
decide-stopped k board frames s (inr h) =
    watts-stop_below k (cut_back k board frames s)
      (inr (omega (arith, (cut_back-SameChargers k board frames s).volts)))

-- When the averaged voltage is above the sketch's maximum or below its minimum, the cycle sets the
-- watts to zero, but the amps that it granted before stay, and every charger reads them again in
-- the heartbeat.
pub stop_keeps_amps :
    (k : Sketch) (board : Board) (frames : List Frame) (s : State) {t : State}
    → 0 < k.output_volts_min
    → s.charging_amps < 0x1_0000
    → (k.output_volts_max < (heard frames s).volts) ⊎ ((heard frames s).volts < k.output_volts_min)
    → cycle k board frames s ≡ some t
    → (t.watts ≡ 0)
      × (t.charging_amps ≡ s.charging_amps)
      × (Scv2.amps t.heartbeat ≡ s.charging_amps)
unfolding announce Scv2.amps
stop_keeps_amps k board frames s {t} h a out e =
    let d = decide k board frames s in
    subst
      (λ u.
        (u.watts ≡ 0)
        × (u.charging_amps ≡ s.charging_amps)
        × (Scv2.amps u.heartbeat ≡ s.charging_amps))
      (cycle-result k board frames s h e)
      (ground (
        arith,
        decide-stopped k board frames s out,
        (decide-SameChargers k board frames s).granted,
        charging_amps-heard frames s,
      ))
