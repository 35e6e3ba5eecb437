-- ===== src/Cdc.antt =====
-- sim/cocotb/lib/gmii_tx_driver.py, gmii_rx_cdc_driver.py, gmii_rx_cdc_monitor.py and
-- gmii_tx_monitor.py: the drivers and monitors on both sides of the GMII clock crossing, over the
-- cycles that they drive and sample.
pub mod Receive
pub mod Transmit
use mathlib.Core.Option
use emac_zero.Base.{
  Bool, List, Option, [], false, get_or, if◌then◌else◌, length, ltb, replicate, true, ℕ, ◌++◌, ◌+◌,
  ◌-◌, ◌/◌, ◌==◌, ◌∷◌,
}
use emac_zero.Base.Bits.{low_bits}
use emac_zero.Base.Py.{Bytes, Result, err, index_error, ok, ◌>>=◌, ◌>>◌}

-- One cycle: the data, the valid line and the error line.
pub record Cycle : Type 0 where
  pub byte : ℕ
  pub valid : Bool
  pub er : ℕ

abbrev pub idle_cycle : Cycle
idle_cycle = record { byte = 0; valid = false; er = 0 }

-- list(er) if er is not None else [0] * len(data)
abbrev pub er_list : Option (List ℕ) → Bytes → List ℕ
er_list er bytes = Option.get_or er (replicate (length bytes) 0)

-- The loop over the bytes; `er[i]` raises where `er` is shorter than the frame.
unfoldable pub drive_bytes : Bytes → List ℕ → Result (List Cycle)
drive_bytes [] es = ok []
drive_bytes (b ∷ bs) [] = err index_error
drive_bytes (b ∷ bs) (e ∷ es) = do
  rest ← drive_bytes bs es
  ok (record { byte = b; valid = true; er = e } ∷ rest)

-- `GmiiTxDriver.send_frame`
unfoldable pub tx_send : Bytes → ℕ → Option (List ℕ) → Result (List Cycle)
tx_send bytes gap er = do
  cycles ← drive_bytes bytes (er_list er bytes)
  ok (cycles ++ (idle_cycle ∷ replicate (gap - 1) idle_cycle))

-- b & 0xFF
abbrev pub masked : Bytes → Bytes
masked [] = []
masked (b ∷ bs) = low_bits b 8 ∷ masked bs

-- `GmiiRxCdcDriver.send_frame`
unfoldable pub rx_send : Bytes → ℕ → Option (List ℕ) → Result (List Cycle)
rx_send bytes gap er = do
  cycles ← drive_bytes (masked bytes) (er_list er bytes)
  ok (cycles ++ replicate gap idle_cycle)

-- `GmiiRxCdcMonitor`, with the locals of `run`.
pub record RxMonitor : Type 0 where
  pub frames : List Bytes
  pub frame_ers : List (List ℕ)
  pub count : ℕ
  pub prev_dv : Bool
  pub cur : Bytes
  pub cur_er : List ℕ

unfoldable pub rx_sample : RxMonitor → Cycle → RxMonitor
rx_sample m c =
    if c.valid
    then record m {
      cur = m.cur ++ low_bits c.byte 8 ∷ [];
      cur_er = m.cur_er ++ c.er ∷ [];
      prev_dv = true;
    }
    else if m.prev_dv
    then record {
      frames = m.frames ++ m.cur ∷ [];
      frame_ers = m.frame_ers ++ m.cur_er ∷ [];
      count = m.count + 1;
      prev_dv = false;
      cur = [];
      cur_er = [];
    }
    else m

unfoldable pub rx_run : RxMonitor → List Cycle → RxMonitor
rx_run m [] = m
rx_run m (c ∷ cs) = rx_run (rx_sample m c) cs

-- `GmiiTxMonitor`, with the locals of `run`.
pub record TxMonitor : Type 0 where
  pub period : ℕ
  pub frames : List Bytes
  pub frame_lens : List ℕ
  pub frame_spans : List ℕ
  pub frame_ers : List (List ℕ)
  pub count : ℕ
  pub prev_en : Bool
  pub span : ℕ
  pub cur : Bytes
  pub cur_er : List ℕ

-- The branch for a cycle with gmii_tx_en_out high.
unfoldable pub tx_collect : TxMonitor → Cycle → TxMonitor
tx_collect m c =
    if m.period == 1
    then record m {
      span = m.span + 1;
      cur = m.cur ++ low_bits c.byte 8 ∷ [];
      cur_er = m.cur_er ++ c.er ∷ [];
      prev_en = true;
    }
    else record m { span = m.span + 1; prev_en = true }

-- What the fall of gmii_tx_en_out records of a span.
unfoldable pub tx_record : TxMonitor → TxMonitor
tx_record m =
    let n = record m { count = m.count + 1; frame_spans = m.frame_spans ++ m.span ∷ [] } in
    if ltb 1 m.span
    then (if m.period == 1
        then record n {
          frames = m.frames ++ m.cur ∷ [];
          frame_lens = m.frame_lens ++ length m.cur ∷ [];
          frame_ers = m.frame_ers ++ m.cur_er ∷ [];
        }
        else record n { frame_lens = m.frame_lens ++ ((m.span - 1) / m.period + 1) ∷ [] })
    else m

unfoldable pub tx_sample : TxMonitor → Cycle → TxMonitor
tx_sample m c =
    if c.valid
    then tx_collect m c
    else if m.prev_en
    then record (tx_record m) { cur = []; cur_er = []; span = 0; prev_en = false }
    else m

unfoldable pub tx_run : TxMonitor → List Cycle → TxMonitor
tx_run m [] = m
tx_run m (c ∷ cs) = tx_run (tx_sample m c) cs
