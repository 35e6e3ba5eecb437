-- ===== src/Mii.antt =====
-- sim/cocotb/lib/mii_monitor.py: the monitor that takes frames from the MII transmit nibbles.
pub mod Finish
pub mod Wire
use emac_zero.Base.{
  Bool, List, [], bit_or, drop, false, get_or, if◌then◌else◌, length, ltb, not, take, true, ℕ, ◌%◌,
  ◌&&◌, ◌++◌, ◌+◌, ◌-◌, ◌==◌, ◌||◌, ◌∷◌,
}
use emac_zero.Base.Bits.{low_bits, shl}
use emac_zero.Base.Py.{Bytes}
use emac_zero.Eth.{fcs_len, fcs_ok, preamble_byte, preamble_len, sfd}

pub data FramingError : Type 0 where
  odd_nibbles : ℕ → FramingError
  runt : ℕ → FramingError
  bad_preamble : FramingError
  fcs_mismatch : ℕ → FramingError

pub record MiiMonitor : Type 0 where
  pub payloads : List Bytes
  pub fcs_errors : ℕ
  pub framing_errors : List FramingError

abbrev pub add_error : MiiMonitor → FramingError → MiiMonitor
add_error m e = record m { framing_errors = m.framing_errors ++ e ∷ [] }

-- bytes(nibbles[i] | (nibbles[i + 1] << 4) …), for an even number of nibbles below 16.
unfoldable pub pair_up : List ℕ → Bytes
pair_up [] = []
pair_up (a ∷ []) = []
pair_up (a ∷ b ∷ rest) = bit_or a (shl b 4) ∷ pair_up rest

-- not any(b != PREAMBLE_BYTE for b in xs)
unfoldable pub all_preamble : Bytes → Bool
all_preamble [] = true
all_preamble (b ∷ bs) = (b == preamble_byte) && all_preamble bs

-- The locals of `run`.
pub record MonitorState : Type 0 where
  pub mon : MiiMonitor
  pub nibbles : List ℕ
  pub active : Bool

module _ (crc32 : Bytes → ℕ) where
  -- `_finish` from the slicing of `data` on.
  unfoldable pub take_frame : MiiMonitor → Bytes → MiiMonitor
  unfolding all_preamble
  take_frame m bytes =
      let body = drop (preamble_len + 1) bytes in
      let payload = take (length body - fcs_len) body in
      let wire_fcs = drop (length body - fcs_len) body in
      let taken = record m { payloads = m.payloads ++ payload ∷ [] } in
      if ltb (length bytes) (preamble_len + 1 + fcs_len)
      then add_error m (runt (length bytes))
      else if not (all_preamble (take preamble_len bytes))
          || not (get_or bytes preamble_len 0 == sfd)
      then add_error m bad_preamble
      else if fcs_ok crc32 payload wire_fcs
      then taken
      else record taken {
        fcs_errors = m.fcs_errors + 1;
        framing_errors = m.framing_errors ++ fcs_mismatch (length payload) ∷ [];
      }

  -- `_finish`
  unfoldable pub finish : MiiMonitor → List ℕ → MiiMonitor
  finish m nibbles =
      if length nibbles % 2 == 1
      then add_error m (odd_nibbles (length nibbles))
      else take_frame m (pair_up nibbles)

  -- One falling edge of mii_tx_clk: mii_tx_en and mii_txd.
  unfoldable pub sample : MonitorState → Bool × ℕ → MonitorState
  sample s (en, txd) =
      if en
      then record s { nibbles = s.nibbles ++ low_bits txd 4 ∷ []; active = true }
      else if s.active
      then record { mon = finish s.mon s.nibbles; nibbles = []; active = false }
      else s

  unfoldable pub run_samples : MonitorState → List (Bool × ℕ) → MonitorState
  run_samples s [] = s
  run_samples s (e ∷ es) = run_samples (sample s e) es
