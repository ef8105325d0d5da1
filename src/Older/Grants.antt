-- ===== src/Older/Grants.antt =====
-- What v2.5/v2.5.ino and its variants grant to the chargers, and which settings they take.
use scv2_sketches.Prelude.{
  ℕ, ◌*◌, ◌/◌, ◌≤◌, ◌<◌, true, false, some, List, [], ◌∷◌, ◌≡◌, ◌⊎◌, sym, ◌∙◌, subst, u16, sext,
  arith,
}
use native.Mathlib.Nat.{div-mul-le_self}
use scv2_sketches.SuperCharger.Sharing.{mul_chain}
use scv2_sketches.Integrated.Tables.{Row}
use scv2_sketches.Integrated.State.{Controller}
use scv2_sketches.Integrated.Charging.{prepare}
use scv2_sketches.Integrated.Settings.{
  Command, command_max_amps, command_wattage, command_c_plus, command_ramp,
}
use scv2_sketches.Integrated.Limits.{amps_of}
use scv2_sketches.Integrated.Grants.{over, prepare-Prepared, limit_amps-le, amps_of-le, Drawn}
use scv2_sketches.Older.Variants.{Variant, max_12v_watts}
use scv2_sketches.Older.Charging.{
  stop_out_of_range, station_limit, charge_watts, grant, set_charging_amps,
}
use scv2_sketches.Older.Main.{command_volts, command_chargers, command, read_commands}

pub set_charging_amps-result :
    (k : Variant) (past_end : List Row) (s : Controller) {t : Controller}
    → set_charging_amps k past_end s ≡ some t
    → t ≡ record (prepare s) {
      watts = charge_watts k past_end (prepare s);
      bike_amps = amps_of (prepare s) (charge_watts k past_end (prepare s));
      charging_amps =
          amps_of (prepare s) (charge_watts k past_end (prepare s)) / (prepare s).charger_count;
    }
unfolding set_charging_amps grant
set_charging_amps-result k past_end s e = ground arith

pub charge_watts-le :
    (k : Variant) (past_end : List Row) (s : Controller)
    → s.charger_count < 54
    → max_12v_watts * s.charger_count ≤ s.max_station_watts
    → s.max_station_watts < 0x1_0000_0000
    → charge_watts k past_end s ≤ s.max_station_watts
unfolding charge_watts station_limit
charge_watts-le k past_end s c w m = ground arith

-- A defined call of any variant, with fewer than 54 chargers whose 12 V supplies the station can
-- feed, without 1C+ and with no pack that draws more than 1 C, sets watts that are at most the
-- station's; the chargers together draw at most these watts, and at most the C rate.
pub shared_within_station :
    (k : Variant) (past_end : List Row) (s : Controller) {t : Controller}
    → s.charger_count < 54
    → max_12v_watts * s.charger_count ≤ s.max_station_watts
    → s.max_station_watts < 0x1_0000_0000
    → (prepare s).volts < 0x8000
    → (prepare s).c_rate < 0x8000_0000
    → s.c_plus ≡ 0
    → over s.monolith_ah s.monolith_amps ≡ false
    → over s.power_tank_ah s.power_tank_amps ≡ false
    → set_charging_amps k past_end s ≡ some t
    → Drawn t
shared_within_station k past_end s {t} c x y v r p m b e =
    let q = prepare s in
    let w = charge_watts k past_end q in
    let h = prepare-Prepared s in
    let l =
      limit_amps-le q (u16 (w / sext q.volts)) (h.plus ∙ p) r (omega arith)
        (rw (h.monolith_ah, h.monolith_amps) m) (rw (h.power_tank_ah, h.power_tank_amps) b) in
    subst Drawn (sym (set_charging_amps-result k past_end s e)) (
      charge_watts-le k past_end q (omega (arith, h.count)) (omega (arith, h.count, h.station))
          (omega (arith, h.station)),
      mul_chain (amps_of q w / q.charger_count * q.charger_count) (amps_of q w) q.volts w
          (div-mul-le_self (amps_of q w) q.charger_count) (amps_of-le q w v l.0),
      omega (arith, div-mul-le_self (amps_of q w) q.charger_count, l.1),
    )

stopped :
    (k : Variant) (past_end : List Row) (s : Controller)
    → k.stops ≡ true
    → k.output_volts_min < 0x8000
    → s.volts < 0x8000
    → (1164 < s.volts) ⊎ (s.volts < k.output_volts_min)
    → charge_watts k past_end s ≡ 0
unfolding charge_watts station_limit stop_out_of_range
stopped k past_end s st m v out = ground arith

zero_div : (v : ℕ) → 0 / v ≡ 0
zero_div v = ground arith

-- A variant that stops (DEBUG_2.5) sets no watts above the maximum voltage or below the least, and
-- grants no amps unless 1C+ is set or a pack draws more than 1 C.
pub stops_in_debug :
    (k : Variant) (past_end : List Row) (s : Controller) {t : Controller}
    → k.stops ≡ true
    → k.output_volts_min < 0x8000
    → (prepare s).volts < 0x8000
    → (1164 < (prepare s).volts) ⊎ ((prepare s).volts < k.output_volts_min)
    → (prepare s).c_rate < 0x8000_0000
    → s.c_plus ≡ 0
    → over s.monolith_ah s.monolith_amps ≡ false
    → over s.power_tank_ah s.power_tank_amps ≡ false
    → set_charging_amps k past_end s ≡ some t
    → (t.watts ≡ 0) × (t.charging_amps * t.charger_count ≡ 0)
stops_in_debug k past_end s {t} st mi v out r p m b e =
    let q = prepare s in
    let w = charge_watts k past_end q in
    let h = prepare-Prepared s in
    let z = stopped k past_end q st mi v out in
    let l =
      limit_amps-le q (u16 (w / sext q.volts)) (h.plus ∙ p) r (omega arith)
        (rw (h.monolith_ah, h.monolith_amps) m) (rw (h.power_tank_ah, h.power_tank_amps) b) in
    let a = amps_of-le q w v l.0 in
    subst (λ (u : Controller). (u.watts ≡ 0) × (u.charging_amps * u.charger_count ≡ 0))
      (sym (set_charging_amps-result k past_end s e))
      (
        z,
        omega (
          arith,
          div-mul-le_self (amps_of q w) q.charger_count,
          subst (λ x. amps_of q w ≤ x / q.volts) z a,
          zero_div q.volts,
        ),
      )

-- The end voltage is one that the variant takes.
abbrev pub EndInRange : Variant → Controller → Type 0
EndInRange k s =
    (k.output_volts_min ≤ s.output_volts_end) × ((k.lifts_end ≡ true) ⊎ (s.output_volts_end ≤ 1164))

command-EndInRange :
    (k : Variant) (c : Command) (s : Controller) → EndInRange k s → EndInRange k (command k c s)
unfolding command command_volts command_max_amps command_chargers command_wattage command_c_plus
    command_ramp
command-EndInRange k c s h = ground arith

-- Whatever the commands, the end voltage stays at or above the least voltage and, in a variant that
-- does not lift it, at or below the maximum.
pub read_commands-EndInRange :
    (k : Variant) (cs : List Command) (s : Controller)
    → EndInRange k s
    → EndInRange k (read_commands k cs s)
unfolding read_commands
read_commands-EndInRange k [] s h = h
read_commands-EndInRange k (c ∷ cs) s h =
    read_commands-EndInRange k cs (command k c s) (command-EndInRange k c s h)
