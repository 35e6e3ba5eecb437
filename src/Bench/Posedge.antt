-- ===== src/Bench/Posedge.antt =====
-- sim/cocotb/lib/rx_loop.py: send_posedge_style; mii_bench.py: ready_edge, send_frame_posedge. Both
-- take a byte as sent at the first rising edge where tready is high.
pub mod Sent
use emac_zero.Base.{Bool, List, Option, [], length, none, some, ℕ, ◌+◌, ◌-◌, ◌==◌, ◌∷◌}
use emac_zero.Base.Py.{Bytes}
use emac_zero.Bench.Bus.{Bus, accept_beat, beat, drive, edge, edges, low, ◌>>=◌}

module _ (ready : ℕ → Bool) (fuel : ℕ) where
  -- The loop of `send_posedge_style`, from index `k` on, and the signals low at its end.
  unfoldable pub send_posedge_from : ℕ → ℕ → Bytes → Bus → Option Bus
  send_posedge_from n k [] bus = some (low bus)
  send_posedge_from n k (b ∷ bs) bus =
      accept_beat ready fuel (drive (beat b (k == n - 1)) bus) >>= send_posedge_from n (k + 1) bs

  unfoldable pub send_posedge_style : Bytes → Bus → Option Bus
  send_posedge_style bs = send_posedge_from (length bs) 0 bs

  unfoldable pub ready_edge : Bus → Option Bus
  ready_edge = accept_beat ready fuel

  -- for i in range(1, n): the beat before is taken, then the next one is put on the signals.
  unfoldable pub send_rest : ℕ → ℕ → Bytes → Bus → Option Bus
  send_rest n i [] bus = some bus
  send_rest n i (b ∷ bs) bus =
      ready_edge bus >>= λ bus'. send_rest n (i + 1) bs (drive (beat b (i == n - 1)) bus')

  -- data[0] of no bytes is an IndexError: none.
  unfoldable pub send_frame_posedge : ℕ → Bytes → Bus → Option Bus
  send_frame_posedge idle_after [] bus = none
  send_frame_posedge idle_after (b ∷ bs) bus =
      let n = length bs + 1 in
      send_rest n 1 bs (drive (beat b (n == 1)) (edge ready bus)) >>= λ bus'.
      (ready_edge bus' >>= λ end. some (edges ready idle_after (low end)))
