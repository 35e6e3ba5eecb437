-- ===== src/Bench/Paced.antt =====
-- sim/cocotb/lib/txpath_bench.py: saf_send_frame, from its first falling edge on. A falling edge that
-- follows a rising one passes no rising edge, and one that follows a falling one passes one.
pub mod Whole
use emac_zero.Base.{
  Bool, Option, false, if◌then◌else◌, ltb, none, some, suc, true, zero, ℕ, ◌%◌, ◌&&◌, ◌+◌, ◌-◌, ◌/◌,
  ◌==◌,
}
use emac_zero.Bench.Bus.{Bus, beat, drive, edge, edges, low, ◌>>=◌}

-- The arguments, past the design.
pub record Pace : Type 0 where
  pub plen : ℕ
  pub first : ℕ
  pub bub : ℕ
  pub set_last : Bool
  pub watchdog : Option ℕ
  pub trailing_idle : Bool

-- watchdog is None or stall < watchdog
unfoldable pub within : ℕ → Option ℕ → Bool
within stall none = true
within stall (some w) = ltb stall w

-- k < plen and (watchdog is None or stall < watchdog)
unfoldable pub goes_on : Pace → ℕ → ℕ → Bool
unfolding within
goes_on p k stall = ltb k p.plen && within stall p.watchdog

-- tvalid is set low, and tdata and tlast stay.
abbrev pub not_valid : Bus → Bus
not_valid bus = record bus { now = record bus.now { tvalid = false } }

-- tlast of byte `k`
unfoldable pub ends_frame : Pace → ℕ → Bool
ends_frame p k = p.set_last && (k == p.plen - 1)

module _ (ready : ℕ → Bool) (p : Pace) where
  -- The bubble before byte `k`.
  unfoldable pub bubbled : ℕ → Bus → Bus
  bubbled k bus =
      if p.bub == 1
      then edge ready (not_valid bus)
      else if (p.bub == 2) && (k == p.plen / 2)
      then edges ready 40 (not_valid bus)
      else bus

  -- What follows the transfer that makes `k` bytes.
  unfoldable pub after_byte : ℕ → Bus → Bus
  after_byte k bus =
      if k == p.plen then low bus else drive (beat (k % 256) (ends_frame p k)) (bubbled k bus)

  -- The loop; the local tvalid is 1 as long as it goes on.
  unfoldable pub send_loop : ℕ → ℕ → ℕ → Bus → Option (ℕ × Bus)
  send_loop zero k stall bus = none
  send_loop (suc fuel) k stall bus =
      let next = send_loop fuel (k + 1) 0 (after_byte (k + 1) (edge ready bus)) in
      let again = send_loop fuel k (stall + 1) (edge ready bus) in
      if goes_on p k stall then (if ready bus.time then next else again) else some (k, bus)

  -- if trailing_idle: …
  unfoldable pub trailed : Bus → Bus
  trailed bus = if p.trailing_idle then low (edge ready bus) else bus

  unfoldable pub saf_send_frame : ℕ → Bus → Option (ℕ × Bus)
  saf_send_frame fuel bus =
      send_loop fuel 0 0 (drive (beat (p.first % 256) (p.set_last && (p.plen == 1))) bus)
      >>= λ (k, bus'). some (k, trailed bus')
