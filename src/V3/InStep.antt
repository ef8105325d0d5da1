-- ===== src/V3/InStep.antt =====
-- What the sketch v3 (v3/v3.ino) keeps in step with what the motorcycle reports.
use scv2_sketches.Prelude.{
  ℕ, ◌+◌, some, List, [], ◌∷◌, ◌≡◌, ◌⊎◌, inr, refl, sym, subst, ◌∙◌, u16, word, Frame, arith,
}
use scv2_sketches.SuperCharger.State.{Setup, Charger}
use scv2_sketches.SuperCharger.Charging.{set_charging_amps, total_amps, share}
use scv2_sketches.SuperCharger.Heartbeat.{receive, super_charge}
use scv2_sketches.V3.State.{Bike, power_up}
use scv2_sketches.V3.Phone.{
  Write, target_volts, max_watts, count, units, battery_max, written, poll, ble_setup,
}
use scv2_sketches.V3.Main.{Input, Output, setup, tick, loop}
use scv2_sketches.V3.Rhythm.{counted}
use scv2_sketches.V3.Branches.{seen, IfDefined, loop-IfDefined}
use scv2_sketches.V3.BikeLoop.{
  Received, Floats, set_volts, on_monolith_voltage, over_current, on_monolith_amps,
  on_power_tank_voltage, on_power_tank_amps, pack_c_rate, on_monolith_config, on_power_tank_config,
  on_monolith_temps, on_power_tank_temps, on_throttle, on_frame, bike_loop,
}

-- A C rate of two capacities.
abbrev pub IsRate : ℕ → ℕ → ℕ → Type 0
IsRate monolith power_tank rate =
    (rate ≡ pack_c_rate monolith power_tank) ⊎ ((monolith ≡ 0) × (power_tank ≡ 0) × (rate ≡ 960))

-- The globals that are computed from others.
pub record InStep (s : Bike) : Type 0 where
  pub amps_eq : s.bike_amps ≡ u16 (s.monolith_amps + s.power_tank_amps)
  pub c_rate_eq : IsRate s.monolith_ah s.power_tank_ah s.charger.c_rate

module _ (r : Received) (s : Bike) (h : InStep s) where
  on_monolith_voltage-InStep : InStep (on_monolith_voltage r s)
  unfolding on_monolith_voltage set_volts
  on_monolith_voltage-InStep = ground (arith)

  on_monolith_amps-InStep : InStep (on_monolith_amps r s)
  unfolding on_monolith_amps over_current
  on_monolith_amps-InStep = ground (arith)

  on_power_tank_voltage-InStep : InStep (on_power_tank_voltage r s)
  unfolding on_power_tank_voltage set_volts
  on_power_tank_voltage-InStep = ground (arith)

  on_power_tank_amps-InStep : InStep (on_power_tank_amps r s)
  unfolding on_power_tank_amps over_current
  on_power_tank_amps-InStep = ground (arith)

  on_monolith_config-InStep : InStep (on_monolith_config r s)
  unfolding on_monolith_config
  on_monolith_config-InStep = ground (arith)

  on_power_tank_config-InStep : InStep (on_power_tank_config r s)
  unfolding on_power_tank_config
  on_power_tank_config-InStep = ground (arith)

  on_monolith_temps-InStep : InStep (on_monolith_temps r s)
  unfolding on_monolith_temps
  on_monolith_temps-InStep = ground (arith)

  on_power_tank_temps-InStep : InStep (on_power_tank_temps r s)
  unfolding on_power_tank_temps
  on_power_tank_temps-InStep = ground (arith)

  on_throttle-InStep : InStep (on_throttle r s)
  unfolding on_throttle
  on_throttle-InStep = ground (arith)

on_frame-InStep : (r : Received) (s : Bike) → InStep s → InStep (on_frame r s)
unfolding on_frame
on_frame-InStep r s h =
    let s1 = on_monolith_voltage r s in
    let s2 = on_monolith_amps r s1 in
    let s3 = on_power_tank_voltage r s2 in
    let s4 = on_power_tank_amps r s3 in
    let s5 = on_monolith_config r s4 in
    let s6 = on_power_tank_config r s5 in
    let s7 = on_monolith_temps r s6 in
    let s8 = on_power_tank_temps r s7 in
    on_throttle-InStep r s8 (
      on_power_tank_temps-InStep r s7 (
        on_monolith_temps-InStep r s6 (
          on_power_tank_config-InStep r s5 (
            on_monolith_config-InStep r s4 (
              on_power_tank_amps-InStep r s3 (
                on_power_tank_voltage-InStep r s2
                  (on_monolith_amps-InStep r s1 (on_monolith_voltage-InStep r s h))))))))

bike_loop-InStep :
    (fl : Floats) (frames : List Received) (s : Bike) → InStep s → InStep (bike_loop fl frames s).0
unfolding bike_loop
bike_loop-InStep fl [] s h = h
bike_loop-InStep fl (r ∷ rs) s h = bike_loop-InStep fl rs (on_frame r s) (on_frame-InStep r s h)

-- The phone.
written-InStep : (w : Write) (s : Bike) → InStep s → InStep (written w s)
unfolding written
written-InStep (target_volts n) s h = ground arith
written-InStep (max_watts n) s h = ground arith
written-InStep (count n) s h = ground arith
written-InStep (units n) s h = ground arith
written-InStep (battery_max n) s h = ground arith

poll-InStep : (ws : List Write) (s : Bike) → InStep s → InStep (poll ws s)
unfolding poll
poll-InStep [] s h = h
poll-InStep (w ∷ ws) s h = poll-InStep ws (written w s) (written-InStep w s h)

counted-InStep : (fl : Floats) (i : Input) (s : Bike) → InStep s → InStep (counted fl i s)
unfolding tick
counted-InStep fl i s h =
    let g = bike_loop-InStep fl i.bike_frames (poll i.central s) (poll-InStep i.central s h) in
    ground arith

-- The control cycle.
c_rate-receive : (fs : List Frame) (s : Charger) → (receive fs s).c_rate ≡ s.c_rate
unfolding receive
c_rate-receive [] s = refl
c_rate-receive (f ∷ fs) s = c_rate-receive fs (record s { volts = word f.b0 f.b1 })

c_rate-set_charging_amps :
    (k : Setup) (s : Charger) {t : Charger} → set_charging_amps k s ≡ some t → t.c_rate ≡ s.c_rate
unfolding set_charging_amps total_amps share
c_rate-set_charging_amps k s e = ground arith

-- What a control cycle sees of the bike and of the C rate.
with_charger-InStep :
    (s : Bike) (c : Charger)
    → c.c_rate ≡ s.charger.c_rate
    → InStep s
    → InStep (record s { charger = c })
with_charger-InStep s c e h = record {
  amps_eq = h.amps_eq;
  c_rate_eq = subst (IsRate s.monolith_ah s.power_tank_ah) (sym e) h.c_rate_eq;
}

super_charge-InStep : (s : Bike) → InStep s → InStep (record s { charger = super_charge s.charger })
unfolding super_charge
super_charge-InStep s h = with_charger-InStep s (super_charge s.charger) refl h

loop-InStep :
    (k : Setup) (fl : Floats) (i : Input) (s : Bike)
    → InStep s
    → IfDefined (λ t o. InStep t) (loop k fl i s)
loop-InStep k fl i s h =
    let b = counted fl i s in
    let g = counted-InStep fl i s h in
    loop-IfDefined (λ t o. InStep t) k fl i s
      (λ c e. super_charge-InStep _ (
        poll-InStep i.polled (record b { charger = c })
          (with_charger-InStep b c
            (c_rate-set_charging_amps k (seen fl i s) e ∙ c_rate-receive i.charger_frames b.charger)
            g)))
      g

-- The states before a pass, from power up, whatever comes in.
pub data Visited (k : Setup) (fl : Floats) : Bike → Type 0 where
  started : Visited k fl (setup k (power_up k))
  passed :
      (i : Input) (s : Bike) {t : Bike} (o : Output)
      → Visited k fl s
      → loop k fl i s ≡ some (t, o)
      → Visited k fl t

setup-InStep : (k : Setup) → InStep (setup k (power_up k))
unfolding setup ble_setup
setup-InStep k = record { amps_eq = refl; c_rate_eq = inr (refl, refl, refl) }

-- From power up, after any defined passes and whatever the frames of both buses and the writes of the
-- phone are: the bike's amps are the sum of the two packs' (as a `short`), and the C rate is ten times
-- the sum of the capacities of the packs, or still the value of the voltage table while neither
-- capacity is known.
pub Visited-InStep : {k : Setup} {fl : Floats} {s : Bike} → Visited k fl s → InStep s
Visited-InStep {k} started = setup-InStep k
Visited-InStep {k} {fl} (passed i s o v e) =
    subst (IfDefined (λ t o. InStep t)) e (loop-InStep k fl i s (Visited-InStep v))
