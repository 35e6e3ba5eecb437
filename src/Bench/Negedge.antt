-- ===== src/Bench/Negedge.antt =====
-- sim/cocotb/lib/rx_loop.py: send_negedge_style; mac_sys_b.py: send_axis, which is the same loop. Both
-- read tready at a falling edge, where it is what the next rising edge sees.
pub mod Lost
use emac_zero.Base.{
  Bool, List, Option, [], if◌then◌else◌, length, none, some, suc, zero, ℕ, ◌+◌, ◌-◌, ◌==◌, ◌∷◌,
}
use emac_zero.Base.Py.{Bytes}
use emac_zero.Bench.Bus.{Bus, beat, drive, edge, low, ◌>>=◌}

module _ (ready : ℕ → Bool) (fuel : ℕ) where
  -- while not tready: await FallingEdge(clk); none where the fuel ends first.
  unfoldable pub hold_until : ℕ → Bus → Option Bus
  hold_until zero bus = none
  hold_until (suc rounds) bus =
      let rest = hold_until rounds (edge ready bus) in if ready bus.time then some bus else rest

  -- The loop from byte `k` on, and the signals low at its end.
  unfoldable pub send_negedge_from : ℕ → ℕ → Bytes → Bus → Option Bus
  send_negedge_from n k [] bus = some (low bus)
  send_negedge_from n k (b ∷ bs) bus =
      hold_until fuel (edge ready (drive (beat b (k == n - 1)) bus))
      >>= send_negedge_from n (k + 1) bs

  -- From the first falling edge on.
  unfoldable pub send_negedge_style : Bytes → Bus → Option Bus
  send_negedge_style bs = send_negedge_from (length bs) 0 bs

  unfoldable pub send_axis : Bytes → Bus → Option Bus
  send_axis bs = send_negedge_from (length bs) 0 bs
