-- ===== src/Selftest/Pause.antt =====
-- `pause_tests`: the checks on the longest stall of the transmitter. Times are in nanoseconds.
use emac_zero.Base.{
  Bool, List, [], if◌then◌else◌, leb, length, ltb, suc, zero, ℕ, ◌&&◌, ◌*◌, ◌+◌, ◌-◌, ◌/◌, ◌==◌,
  ◌∷◌,
}
use emac_zero.Selftest.Results.{RunStatus, Speed, clean, count_fails, fast, gigabit, slow}

-- CLK_NS
abbrev pub clk_ns : ℕ
clk_ns = 8

-- QUANTUM_NS
unfoldable pub quantum_ns : Speed → ℕ
quantum_ns gigabit = 512
quantum_ns fast = 5120
quantum_ns slow = 51200

-- FRAME_NS
unfoldable pub frame_ns : Speed → ℕ
frame_ns speed = 9038 * 8 * quantum_ns speed / 512

-- MIN_QUANTA: the quotient rounded up
unfoldable pub min_quanta : ℕ
min_quanta = (4 * frame_ns gigabit + (quantum_ns gigabit - 1)) / quantum_ns gigabit

-- The test of `main` on --pause-quanta.
unfoldable pub quanta_allowed : ℕ → Bool
quanta_allowed quanta = leb min_quanta quanta && leb quanta 0xFFFF

unfoldable pub gap_ns : RunStatus → ℕ
gap_ns s = s.max_gap * clk_ns

-- s["pause_ok"] == n and s["pause_bad"] == 0
unfoldable pub pauses_back : ℕ → RunStatus → Bool
pauses_back n s = (s.pause_ok == n) && (s.pause_bad == 0)

-- abs(gap - dur) <= 2 * f_ns
unfoldable pub near_pause : Speed → ℕ → ℕ → Bool
near_pause speed quanta gap =
    let dur = quanta * quantum_ns speed in
    leb (gap - dur) (2 * frame_ns speed) && leb (dur - gap) (2 * frame_ns speed)

unfoldable pub no_stall : Speed → ℕ → Bool
no_stall speed gap = leb gap (2 * frame_ns speed)

unfoldable pub honored_checks : Speed → ℕ → RunStatus → List Bool
honored_checks speed quanta s = clean s ∷ pauses_back 1 s ∷ near_pause speed quanta (gap_ns s) ∷ []

unfoldable pub ignored_checks : Speed → RunStatus → List Bool
ignored_checks speed s = clean s ∷ pauses_back 1 s ∷ no_stall speed (gap_ns s) ∷ []

-- What `xon_once` gives: the status, the times around each write, and around that of Q = 0.
pub record XonRun : Type 0 where
  pub final : RunStatus
  pub first : ℕ × ℕ
  pub more : List (ℕ × ℕ)
  pub xon : ℕ × ℕ

abbrev pub full_ns : Speed → ℕ
full_ns speed = 0xFFFF * quantum_ns speed

-- slack > 0: each pause took effect before the one before it could run out.
unfoldable pub continuous : Speed → ℕ × ℕ → List (ℕ × ℕ) → ℕ × ℕ → Bool
continuous speed p [] x = ltb (x.1 + 2 * frame_ns speed) (p.0 + full_ns speed)
continuous speed p (n ∷ ns) x =
    ltb (n.1 + 2 * frame_ns speed) (p.0 + full_ns speed) && continuous speed n ns x

-- edges[-1][0]
unfoldable pub last_start : ℕ × ℕ → List (ℕ × ℕ) → ℕ
last_start p [] = p.0
last_start p (n ∷ ns) = last_start n ns

unfoldable pub is_valid : Speed → XonRun → Bool
is_valid speed x = continuous speed x.first x.more x.xon

-- The loop over the attempts, from attempt `k` on: the first valid one, or the last.
unfoldable pub choose_attempt : Speed → (ℕ → XonRun) → ℕ → ℕ → XonRun
choose_attempt speed runs zero k = runs k
choose_attempt speed runs (suc left) k =
    let rest = choose_attempt speed runs left (k + 1) in
    if is_valid speed (runs k) then runs k else rest

-- gap >= lo, with lo = x0 - on1 - 2 * f
unfoldable pub above_low : Speed → XonRun → ℕ → Bool
above_low speed x gap = leb x.xon.0 (gap + x.first.1 + 2 * frame_ns speed)

-- gap <= hi, with hi = x1 - on0 + 2 * f + 1 ms
unfoldable pub below_high : Speed → XonRun → ℕ → Bool
below_high speed x gap = leb (gap + x.first.0) (x.xon.1 + 2 * frame_ns speed + 1000000)

-- ignored > hi, with ignored = last0 + full - on1 - 2 * f
unfoldable pub can_tell : Speed → XonRun → Bool
can_tell speed x =
    ltb (x.xon.1 + x.first.1 + 4 * frame_ns speed + 1000000)
      (last_start x.first x.more + full_ns speed + x.first.0)

unfoldable pub xon_checks : Speed → XonRun → List Bool
xon_checks speed x =
    let gap = gap_ns x.final in
    let valid = is_valid speed x in
    let counted = valid && above_low speed x gap && below_high speed x gap in
    clean x.final
    ∷ pauses_back (length x.more + 2) x.final
    ∷ valid
    ∷ (valid && above_low speed x gap)
    ∷ below_high speed x gap
    ∷ (if can_tell speed x then counted ∷ [] else [])

-- The failures of `pause_tests`.
unfoldable pub pause_fails : Speed → ℕ → RunStatus → RunStatus → (ℕ → XonRun) → ℕ
pause_fails speed quanta honored ignored runs =
    count_fails (honored_checks speed quanta honored)
    + count_fails (ignored_checks speed ignored)
    + count_fails (xon_checks speed (choose_attempt speed runs 2 1))
