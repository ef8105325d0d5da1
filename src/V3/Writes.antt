-- ===== src/V3/Writes.antt =====
-- What the writes of a phone do to the charge (v3/ZERO_V3_BLE.h).
use scv2_sketches.Prelude.{ℕ, Bool, true, false, List, [], ◌∷◌, ◌++◌, All, ◌≡◌, refl, arith}
use scv2_sketches.V3.State.{Bike}
use scv2_sketches.V3.Phone.{
  Write, target_volts, max_watts, count, units, battery_max, user_update, written, poll,
}

-- Writes for which `userUpdate` is installed.
abbrev pub is_handled : Write → Bool
is_handled (target_volts n) = true
is_handled (max_watts n) = true
is_handled (count n) = false
is_handled (units n) = true
is_handled (battery_max n) = false

-- The last value written to a characteristic, or else the one it has.
abbrev pub last_target : List Write → ℕ → ℕ
last_target [] n = n
last_target (target_volts m ∷ ws) n = last_target ws m
last_target (w ∷ ws) n = last_target ws n

abbrev pub last_watts : List Write → ℕ → ℕ
last_watts [] n = n
last_watts (max_watts m ∷ ws) n = last_watts ws m
last_watts (w ∷ ws) n = last_watts ws n

abbrev pub last_count : List Write → ℕ → ℕ
last_count [] n = n
last_count (count m ∷ ws) n = last_count ws m
last_count (w ∷ ws) n = last_count ws n

-- After writes of which the last one is handled, the end voltage, the station's watts and the
-- number of chargers are the last values written to their characteristics, or the characteristics'
-- old values, whatever they were before in the charger.
pub handled_write_takes_all :
    (ws : List Write) (w : Write) (s : Bike)
    → is_handled w ≡ true
    → ((poll (ws ++ w ∷ []) s).charger.output_volts_end
        ≡ last_target (ws ++ w ∷ []) s.ble.charger_target_volts)
      × ((poll (ws ++ w ∷ []) s).charger.max_station_watts
          ≡ last_watts (ws ++ w ∷ []) s.ble.charger_max_watts)
      × ((poll (ws ++ w ∷ []) s).charger.charger_count
          ≡ last_count (ws ++ w ∷ []) s.ble.charger_count_ble)
unfolding poll written user_update
handled_write_takes_all [] (target_volts n) s h = (refl, refl, refl)
handled_write_takes_all [] (max_watts n) s h = (refl, refl, refl)
handled_write_takes_all [] (count n) s h = ground arith
handled_write_takes_all [] (units n) s h = (refl, refl, refl)
handled_write_takes_all [] (battery_max n) s h = ground arith
handled_write_takes_all (target_volts n ∷ ws) w s h =
    handled_write_takes_all ws w (written (target_volts n) s) h
handled_write_takes_all (max_watts n ∷ ws) w s h =
    handled_write_takes_all ws w (written (max_watts n) s) h
handled_write_takes_all (count n ∷ ws) w s h = handled_write_takes_all ws w (written (count n) s) h
handled_write_takes_all (units n ∷ ws) w s h = handled_write_takes_all ws w (written (units n) s) h
handled_write_takes_all (battery_max n ∷ ws) w s h =
    handled_write_takes_all ws w (written (battery_max n) s) h

-- Writes without a handler change nothing in the charger, and the number of chargers that a phone
-- writes is one of them; it waits in its characteristic.
pub unhandled_writes_wait :
    (ws : List Write) (s : Bike)
    → All (λ w. is_handled w ≡ false) ws
    → ((poll ws s).charger ≡ s.charger)
      × ((poll ws s).ble.charger_count_ble ≡ last_count ws s.ble.charger_count_ble)
unfolding poll written
unhandled_writes_wait [] s h = (refl, refl)
unhandled_writes_wait (target_volts n ∷ ws) s h = ground arith
unhandled_writes_wait (max_watts n ∷ ws) s h = ground arith
unhandled_writes_wait (units n ∷ ws) s h = ground arith
unhandled_writes_wait (count n ∷ ws) s h = unhandled_writes_wait ws (written (count n) s) h.1
unhandled_writes_wait (battery_max n ∷ ws) s h =
    unhandled_writes_wait ws (written (battery_max n) s) h.1
