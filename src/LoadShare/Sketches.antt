-- ===== src/LoadShare/Sketches.antt =====
-- The constants of each load share sketch, and its default heartbeat.
use scv2_sketches.Prelude.{[], ◌∷◌, Frame}
use scv2_sketches.LoadShare.State.{Sketch, step_down, lower_target, full, brief, hundredths}

-- loadShare.ino
abbrev pub load_share : Sketch
load_share = record {
  output_volts_max = 1164;
  output_volts_min = 500;
  ramp_rate = 5000;
  cutback = (1130, 700000) ∷ (1135, 600000) ∷ (1145, 500000) ∷ (1155, 400000) ∷ (1160, 300000) ∷ [];
  rule = step_down;
  telemetry = full;
}

-- LoadShare-v3.ino
abbrev pub load_share_v3 : Sketch
load_share_v3 = record {
  output_volts_max = 1164;
  output_volts_min = 500;
  ramp_rate = 5000;
  cutback = (1130, 700000) ∷ (1135, 600000) ∷ (1145, 500000) ∷ (1155, 400000) ∷ (1160, 300000) ∷ [];
  rule = step_down;
  telemetry = brief;
}

-- 13kw_load_share.ino
abbrev pub load_share_13kw : Sketch
load_share_13kw = record {
  output_volts_max = 1164;
  output_volts_min = 700;
  ramp_rate = 50000;
  cutback =
      (900, 2200000)
      ∷ (1040, 1600000)
      ∷ (1110, 1400000)
      ∷ (1130, 1300000)
      ∷ (1140, 1000000)
      ∷ (1150, 660000)
      ∷ (1155, 500000)
      ∷ (1160, 400000)
      ∷ [];
  rule = lower_target;
  telemetry = hundredths;
}

-- 5.7kw_load_share.ino, and 5.7kw_load_share-SERIAL.ino, which has the same constants.
abbrev pub load_share_5kw : Sketch
load_share_5kw = record {
  output_volts_max = 1164;
  output_volts_min = 700;
  ramp_rate = 50000;
  cutback =
      (900, 990000)
      ∷ (1040, 750000)
      ∷ (1110, 660000)
      ∷ (1130, 550000)
      ∷ (1140, 450000)
      ∷ (1150, 330000)
      ∷ (1155, 280000)
      ∷ (1160, 220000)
      ∷ [];
  rule = lower_target;
  telemetry = hundredths;
}

-- BAJA-13kw_load_share.ino
abbrev pub load_share_baja : Sketch
load_share_baja = record {
  output_volts_max = 1263;
  output_volts_min = 700;
  ramp_rate = 50000;
  cutback =
      (1000, 2200000)
      ∷ (1140, 1600000)
      ∷ (1210, 1400000)
      ∷ (1230, 1300000)
      ∷ (1240, 1000000)
      ∷ (1250, 660000)
      ∷ (1255, 500000)
      ∷ (1250, 400000)
      ∷ [];
  rule = lower_target;
  telemetry = hundredths;
}

-- 116.4 volts and 32.0 amps.
abbrev pub heartbeat_default : Frame
heartbeat_default = record {
  b0 = 0x04;
  b1 = 0x8c;
  b2 = 0x01;
  b3 = 0x40;
  b4 = 0;
  b5 = 0;
  b6 = 0;
  b7 = 0;
}

-- 126.3 volts, in BAJA-13kw_load_share.ino.
abbrev pub heartbeat_baja : Frame
heartbeat_baja = record {
  b0 = 0x04;
  b1 = 0xef;
  b2 = 0x01;
  b3 = 0x40;
  b4 = 0;
  b5 = 0;
  b6 = 0;
  b7 = 0;
}
