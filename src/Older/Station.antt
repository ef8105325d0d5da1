-- ===== src/Older/Station.antt =====
-- What the chargers draw after a pass of v2.5/v2.5.ino and its variants, from the commands and the
-- frames of both buses to the heartbeat that the chargers read.
use scv2_sketches.Prelude.{◌*◌, ◌≤◌, ◌<◌, false, some, List, ◌≡◌, subst, Frame}
use scv2_sketches.V3.BikeLoop.{Floats}
use scv2_sketches.Integrated.Tables.{Row}
use scv2_sketches.Integrated.State.{Controller}
use scv2_sketches.Integrated.Charging.{prepare}
use scv2_sketches.Integrated.Main.{Input, Output}
use scv2_sketches.Integrated.Grants.{over}
use scv2_sketches.Integrated.Station.{Fits, FitsIfSent, sent-FitsIfSent, silent-FitsIfSent}
use scv2_sketches.Integrated.Branches.{IfDefined}
use scv2_sketches.Older.Variants.{Variant, max_12v_watts}
use scv2_sketches.Older.Main.{loop}
use scv2_sketches.Older.Branches.{counted, heard, variant-IfDefined}
use scv2_sketches.Older.Grants.{shared_within_station}

-- A pass of any variant that sends a heartbeat, with fewer than 54 chargers whose 12 V supplies the
-- station can feed, when 1C+ is off and no pack draws more than 1 C: the amps that a charger reads in
-- it, for each of the chargers counted, are at most the C rate, and at the pass's voltage at most
-- the station's watts. The voltage and the C rate at the time of the computation are not negative.
pub variant_within_station :
    (k : Variant) (past_end : List Row) (fl : Floats) (i : Input) (s : Controller) {t : Controller}
    {o : Output} (f : Frame)
    → (heard k fl i s).charger_count < 54
    → max_12v_watts * (heard k fl i s).charger_count ≤ (heard k fl i s).max_station_watts
    → (heard k fl i s).max_station_watts < 0x1_0000_0000
    → (prepare (heard k fl i s)).volts < 0x8000
    → (prepare (heard k fl i s)).c_rate < 0x8000_0000
    → (heard k fl i s).c_plus ≡ 0
    → over (heard k fl i s).monolith_ah (heard k fl i s).monolith_amps ≡ false
    → over (heard k fl i s).power_tank_ah (heard k fl i s).power_tank_amps ≡ false
    → loop k past_end fl i s ≡ some (t, o)
    → o.heartbeat ≡ some f
    → Fits t f
variant_within_station k past_end fl i s f n w m v r p a b e h =
    let x = heard k fl i s in
    subst (IfDefined FitsIfSent) e
      (variant-IfDefined FitsIfSent k past_end fl i s
        (λ u o' q e'.
          sent-FitsIfSent u o' e' (shared_within_station k past_end x n w m v r p a b q))
        (λ o' q e'. silent-FitsIfSent (counted k fl i s) o' e'))
      f h
