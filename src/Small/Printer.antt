-- ===== src/Small/Printer.antt =====
-- The sketches that print the frames of a bus: read_charger/read_charger.ino and
-- sketch_may02a/sketch_may02a.ino those of the chargers, basic_zero_can/basic_zero_can.ino and
-- ZeroLogger/ZeroLogger.ino those of the motorcycle.
use scv2_sketches.Prelude.{
  ℕ, zero, suc, if◌then◌else◌, Bool, false, Option, none, some, List, [], ◌∷◌, ◌++◌, Frame, word,
  u16,
}
use scv2_sketches.Zero.Logger.{Output, text, hex, newline, dump, log_raw}

-- A frame with its extended or standard id.
pub record Heard : Type 0 where
  pub can_id : ℕ
  pub len : ℕ
  pub buf : Frame

abbrev pub bytes : Frame → List ℕ
bytes f = f.b0 ∷ f.b1 ∷ f.b2 ∷ f.b3 ∷ f.b4 ∷ f.b5 ∷ f.b6 ∷ f.b7 ∷ []

-- A print of a number in decimal is next to those of `Output`.
pub data Print : Type 0 where
  out : Output → Print
  decimal : ℕ → Print

abbrev pub outs : List Output → List Print
outs [] = []
outs (o ∷ os) = out o ∷ outs os

-- `loop` of read_charger and sketch_may02a: the id in 16 bits, the bytes, and two words.
unfoldable pub read_charger : Option Heard → List Print
read_charger none = []
read_charger (some h) =
    outs (
      text "-----------------------------"
      ∷ newline
      ∷ text "Get data from ID: "
      ∷ hex (u16 h.can_id)
      ∷ newline
      ∷ dump h.len (bytes h.buf))
    ++ (decimal (word h.buf.b0 h.buf.b1)
        ∷ out (text "\t")
        ∷ decimal (word h.buf.b2 h.buf.b3)
        ∷ out newline
        ∷ [])

-- The bytes in decimal.
abbrev pub decimals : ℕ → List ℕ → List Print
decimals zero buf = []
decimals (suc len) [] = []
decimals (suc len) (b ∷ buf) = decimal b ∷ out (text "\t") ∷ decimals len buf

-- The loop over the frames of basic_zero_can.
unfoldable pub zero_frames : List Heard → List Print
zero_frames [] = []
zero_frames (h ∷ hs) =
    (out (hex (u16 h.can_id)) ∷ out (text " :\t") ∷ decimals h.len (bytes h.buf))
    ++ (out newline ∷ zero_frames hs)

-- `loop` of basic_zero_can, with the flag of its interrupt.
unfoldable pub basic_zero_can : List Heard → Bool → Bool × List Print
basic_zero_can hs flag_recv = if flag_recv then (false, zero_frames hs) else (flag_recv, [])

-- `loop` of ZeroLogger.
unfoldable pub zero_logger : Bool → List Heard → List Output
zero_logger serial [] = []
zero_logger serial (h ∷ hs) =
    log_raw serial h.len (bytes h.buf) (u16 h.can_id) ++ zero_logger serial hs
