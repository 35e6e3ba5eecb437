-- ===== src/Loopback/Board.antt =====
-- `Board`: the output word and its bits, the wait for the links, and a window of traffic.
use emac_zero.Base.{
  Option, bit_and, bit_or, if◌then◌else◌, leb, ltb, min, none, not, some, suc, zero, ℕ, ◌+◌, ◌-◌,
}
use emac_zero.Loopback.Status.{
  Status, TestName, clear_bit, decode_status, links_up, run_bit, traffic_bits,
}
use emac_zero.Session.{
  Action, Host, monotonic, pure, read_inputs, sleep, write_outputs, ◌>>=◌, ◌>>◌,
}

-- value & ~bits
abbrev pub and_not : ℕ → ℕ → ℕ
and_not value bits = value - bit_and value bits

abbrev pub Lb : Type 0 → Type 0
Lb A = Action TestName A

module _ (h : Host) where
  unfoldable pub read_status : Lb Status
  read_status = do raw ← read_inputs h; pure (decode_status raw)

  -- `write`: the attribute changes even if the call raises.
  unfoldable pub write_word : ℕ → Lb (Unit {0})
  write_word value w = write_outputs h value (record w { ctrl = value })

  -- `set(bits)` and `set(bits, False)`
  unfoldable pub set_on : ℕ → Lb (Unit {0})
  set_on bits w = write_word (bit_or w.ctrl bits) w

  unfoldable pub set_off : ℕ → Lb (Unit {0})
  set_off bits w = write_word (and_not w.ctrl bits) w

  unfoldable pub pulse : ℕ → ℕ → Lb (Unit {0})
  pulse bits ms = do set_on bits; sleep h ms; set_off bits

  unfoldable pub clear : Lb (Unit {0})
  clear = pulse clear_bit 50

  -- The loop of `wait_links`; a turn takes 100 ms or more, so the fuel is enough.
  unfoldable pub wait_loop : ℕ → ℕ → ℕ → Lb (Option ℕ)
  wait_loop zero timeout t0 = pure none
  wait_loop (suc fuel) timeout t0 = do
    t ← monotonic h
    if not (ltb (t - t0) timeout) then pure none else do
      s ← read_status
      if links_up s
          then (do t1 ← monotonic h; pure (some (t1 - t0)))
          else do sleep h 100; wait_loop fuel timeout t0

  unfoldable pub wait_links : ℕ → Lb (Option ℕ)
  wait_links timeout = do t0 ← monotonic h; wait_loop (suc timeout) timeout t0

  -- `if progress and …`: the status is read to be shown.
  unfoldable pub show_progress : ℕ → ℕ → ℕ → Lb ℕ
  show_progress zero t0 next_show = pure next_show
  show_progress (suc k) t0 next_show = do
    t ← monotonic h
    if not (leb next_show (t - t0))
        then pure next_show
        else do s ← read_status; t1 ← monotonic h; pure (next_show + suc k)

  -- The loop of `traffic`; a turn takes a millisecond or more or ends it.
  unfoldable pub traffic_loop : ℕ → ℕ → ℕ → ℕ → ℕ → Lb (Unit {0})
  traffic_loop zero seconds progress t0 next_show = pure tt
  traffic_loop (suc fuel) seconds progress t0 next_show = do
    t ← monotonic h
    if not (ltb (t - t0) seconds) then pure tt else do
      t1 ← monotonic h
      sleep h (min 500 (seconds - (t1 - t0)))
      next ← show_progress progress t0 next_show
      traffic_loop fuel seconds progress t0 next

  unfoldable pub run_traffic : ℕ → ℕ → ℕ → Lb Status
  run_traffic seconds extra progress = do
    set_off traffic_bits
    clear
    set_on (bit_or run_bit extra)
    t0 ← monotonic h
    traffic_loop (suc (suc seconds)) seconds progress t0 progress
    set_off (bit_or run_bit extra)
    sleep h 300
    read_status
