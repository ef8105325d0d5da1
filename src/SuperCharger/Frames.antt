-- ===== src/SuperCharger/Frames.antt =====
-- The frames that a charger and SC.h (libraries/DIGINOW_SUPERCHARGER) exchange, read by the
-- decoders of libraries/SCv2, which read a short with its high byte first.
use scv2_sketches.Prelude.{◌+◌, ◌*◌, ◌/◌, ◌%◌, ◌<◌, ◌≡◌, ◌↔◌, arith}
use scv2_sketches.Scv2
use scv2_sketches.SuperCharger.State.{Charger}
use scv2_sketches.SuperCharger.Heartbeat.{super_charge}

-- The heartbeat of SC.h carries the amps of one charger as the charger reads them.
-- The voltage it carries is the end voltage (as a `short`) with its two bytes swapped: a charger
-- reads the end voltage exactly when the two bytes are the same.
pub heartbeat_fields :
    (s : Charger)
    → s.charging_amps < 0x1_0000
    → s.output_volts_end < 0x1_0000
    → (Scv2.amps (super_charge s).heartbeat ≡ s.charging_amps)
      × (Scv2.voltage (super_charge s).heartbeat
          ≡ s.output_volts_end % 256 * 256 + s.output_volts_end / 256)
      × ((Scv2.voltage (super_charge s).heartbeat ≡ s.output_volts_end)
          ↔ (s.output_volts_end % 256 ≡ s.output_volts_end / 256))
unfolding super_charge Scv2.amps Scv2.voltage
heartbeat_fields s a v = (omega arith, omega arith, ((λ e. omega arith), (λ e. omega arith)))
