-- ===== src/Bench/Master.antt =====
-- sim/cocotb/lib/axis_driver.py: AxisMaster. The bubbles that its generator draws are a parameter:
-- what the byte of each number draws, none where random() is not below p_bubble.
pub mod Stream
use emac_zero.Base.{Bool, List, Option, [], length, none, some, suc, zero, ℕ, ◌&&◌, ◌+◌, ◌==◌, ◌∷◌}
use emac_zero.Base.Py.{Bytes}
use emac_zero.Bench.Bus.{Bus, accept_beat, beat, drive, edges, low, ◌>>=◌}
use emac_zero.Saf.{Segment}

module _ (ready : ℕ → Bool) where
  -- `_idle`
  unfoldable pub idle_cycles : ℕ → Bus → Bus
  idle_cycles cycles bus = edges ready cycles (low bus)

  unfoldable pub bubble : Option ℕ → Bus → Bus
  bubble none bus = bus
  bubble (some gap) bus = idle_cycles gap bus

module _ (ready : ℕ → Bool) (fuel : ℕ) (draws : ℕ → Option ℕ) where
  -- The bytes from index `i` on of a segment of `n`; `j` bytes were sent before.
  unfoldable pub send_bytes : ℕ → ℕ → Bool → ℕ → Bytes → Bus → Option Bus
  send_bytes j n last i [] bus = some (low bus)
  send_bytes j n last i (b ∷ bs) bus =
      accept_beat ready fuel (drive (beat b (last && (i + 1 == n))) (bubble ready (draws j) bus))
      >>= send_bytes (suc j) n last (i + 1) bs

  unfoldable pub send_segment : ℕ → Segment → Bus → Option Bus
  send_segment j seg = send_bytes j (length seg.bytes) seg.last 0 seg.bytes

  unfoldable pub send_all : ℕ → List Segment → Bus → Option Bus
  send_all j [] bus = some (idle_cycles ready 4 bus)
  send_all j (seg ∷ segs) bus = send_segment j seg bus >>= send_all (j + length seg.bytes) segs
