-- ===== src/Bench/Capture.antt =====
-- sim/cocotb/lib/txpath_bench.py: val, is1, BridgeMiiCapture and MiiNibbleCapture, one sampled clock
-- cycle at a time. A callback is the list of its calls.
pub mod Frames
pub mod Buffer
use emac_zero.Base.{
  Bool, List, Option, [], bit_or, false, if◌then◌else◌, length, ltb, none, not, replicate, set,
  some, true, ℕ, ◌&&◌, ◌++◌, ◌+◌, ◌==◌, ◌∷◌,
}
use emac_zero.Base.Bits.{shl}

-- What `val` gives of rst_n, mii_tx_en and mii_txd: none while a bit is X, Z or U.
pub record MiiSample : Type 0 where
  pub rst_n : Option ℕ
  pub tx_en : Option ℕ
  pub txd : Option ℕ

-- `is1`
unfoldable pub is_one : Option ℕ → Bool
is_one none = false
is_one (some v) = v == 1

-- None if txd is None or low is None else (txd << 4) | low
unfoldable pub join_nibbles : Option ℕ → Option ℕ → Option ℕ
join_nibbles (some high) (some lower) = some (bit_or (shl high 4) lower)
join_nibbles none lower = none
join_nibbles (some high) none = none

-- BridgeMiiCapture; `ends` are the calls of on_frame_end.
pub record BridgeCapture : Type 0 where
  pub size : ℕ
  pub buf : List (Option ℕ)
  pub prev : Bool
  pub nib_sel : Bool
  pub lower : Option ℕ
  pub idx : ℕ
  pub ends : List (ℕ × List (Option ℕ))

unfoldable pub new_bridge : ℕ → BridgeCapture
new_bridge size = record {
  size = size;
  buf = replicate size none;
  prev = false;
  nib_sel = false;
  lower = some 0;
  idx = 0;
  ends = [];
}

-- The branch `if en`, which reads nib_sel and idx as they were before the edge.
unfoldable pub bridge_nibble : Bool → ℕ → Option ℕ → BridgeCapture → BridgeCapture
bridge_nibble nib_sel idx txd s =
    if not nib_sel then record s { lower = txd; nib_sel = true } else record s {
      buf = if ltb idx s.size then set s.buf idx (join_nibbles txd s.lower) else s.buf;
      idx = idx + 1;
      nib_sel = false;
    }

-- One cycle out of reset.
unfoldable pub bridge_cycle : BridgeCapture → Bool → Option ℕ → BridgeCapture
bridge_cycle s en txd =
    let s1 = record s { prev = en } in
    let s2 = if not s.prev && en then record s1 { nib_sel = false; idx = 0 } else s1 in
    let s3 = if en then bridge_nibble s.nib_sel s.idx txd s2 else s2 in
    if s.prev && not en then record s3 { ends = s3.ends ++ (s.idx, s3.buf) ∷ [] } else s3

unfoldable pub bridge_step : BridgeCapture → MiiSample → BridgeCapture
bridge_step s c =
    if not (is_one c.rst_n)
    then record s { prev = false; nib_sel = false; lower = some 0; idx = 0 }
    else bridge_cycle s (is_one c.tx_en) c.txd

unfoldable pub bridge_run : BridgeCapture → List MiiSample → BridgeCapture
bridge_run s [] = s
bridge_run s (c ∷ cs) = bridge_run (bridge_step s c) cs

-- MiiNibbleCapture; `got` are the calls of on_byte and `frames` those of on_frame.
pub record NibbleCapture : Type 0 where
  pub en_d : Bool
  pub nsel : Bool
  pub lown : Option ℕ
  pub widx : ℕ
  pub got : List (ℕ × Option ℕ)
  pub frames : List ℕ

unfoldable pub new_capture : NibbleCapture
new_capture = record { en_d = false; nsel = false; lown = some 0; widx = 0; got = []; frames = [] }

-- One cycle out of reset.
unfoldable pub capture_cycle : NibbleCapture → Bool → Option ℕ → NibbleCapture
capture_cycle s en txd =
    let s1 = record s { en_d = en } in
    if en
    then (if not s.nsel then record s1 { lown = txd; nsel = true } else record s1 {
      got = s.got ++ (s.widx, join_nibbles txd s.lown) ∷ [];
      widx = s.widx + 1;
      nsel = false;
    })
    else if s.en_d
    then record s1 { frames = s.frames ++ s.widx ∷ []; widx = 0; nsel = false }
    else s1

unfoldable pub capture_step : NibbleCapture → MiiSample → NibbleCapture
capture_step s c =
    if not (is_one c.rst_n)
    then record s { en_d = false; nsel = false; widx = 0 }
    else capture_cycle s (is_one c.tx_en) c.txd

unfoldable pub capture_run : NibbleCapture → List MiiSample → NibbleCapture
capture_run s [] = s
capture_run s (c ∷ cs) = capture_run (capture_step s c) cs
