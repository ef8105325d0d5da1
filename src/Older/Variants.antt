-- ===== src/Older/Variants.antt =====
-- Where v2.5, DEBUG_2.5 and 13kw_force differ.
use scv2_sketches.Prelude.{ℕ, Bool, true, false}

-- The least voltage; whether the charge slows down above the maximum instead of above the end
-- voltage; whether it stops out of the range; whether a command may set an end voltage above the
-- maximum.
pub record Variant : Type 0 where
  pub output_volts_min : ℕ
  pub slows_at_max : Bool
  pub stops : Bool
  pub lifts_end : Bool

abbrev pub v2_5 : Variant
v2_5 = record { output_volts_min = 700; slows_at_max = false; stops = false; lifts_end = false }

-- DEBUG_2.5 stops the charge out of the range; in v2.5 these lines are commented out.
abbrev pub debug_2_5 : Variant
debug_2_5 = record { output_volts_min = 700; slows_at_max = false; stops = true; lifts_end = false }

abbrev pub force_13kw : Variant
force_13kw = record { output_volts_min = 500; slows_at_max = true; stops = false; lifts_end = true }

abbrev pub max_12v_watts : ℕ
max_12v_watts = 600
