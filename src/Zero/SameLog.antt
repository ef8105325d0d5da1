-- ===== src/Zero/SameLog.antt =====
-- The logs of the older (BKUP-ZERO_MOTORCYCLE) and of the current library of the motorcycle.
use scv2_sketches.Prelude.{ℕ, Bool, true, false, List, [], ◌∷◌, ◌++◌, ◌≡◌, refl, none, arith}
use scv2_sketches.Zero.Network.{
  Message, find_message, calexmx_charge_status, t_calexmx_max_charge_voltage_current,
  ccu_charge_status, t_ccu_max_charge_voltage_current,
}
use scv2_sketches.Zero.Logger.{log_raw}
use scv2_sketches.Zero.Old.{old_messages, old_log_raw}

-- The messages that the current table has behind those of the older one.
abbrev pub new_messages : List Message
new_messages =
    calexmx_charge_status ∷ t_calexmx_max_charge_voltage_current ∷ ccu_charge_status
    ∷ t_ccu_max_charge_voltage_current ∷ []

-- A search falls through to the second list where the second list is searched in vain.
find_message-append :
    (i : ℕ) (ms ns : List Message)
    → find_message i ns ≡ none
    → find_message i (ms ++ ns) ≡ find_message i ms
unfolding find_message
find_message-append i [] ns h = h
find_message-append i (m ∷ ms) ns h = let rest = find_message-append i ms ns h in ground arith

-- On every frame whose id is none of the four that were added, the older library logs what the
-- current one logs; with no port open neither logs anything.
pub old_log_raw-same :
    (serial : Bool) (len : ℕ) (buf : List ℕ) (i : ℕ)
    → find_message i new_messages ≡ none
    → old_log_raw serial len buf i ≡ log_raw serial len buf i
unfolding old_log_raw log_raw
old_log_raw-same false len buf i h = refl
old_log_raw-same true len buf i h = rw (find_message-append i old_messages new_messages h)
