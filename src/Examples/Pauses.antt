-- ===== src/Examples/Pauses.antt =====
-- The theorems on the PAUSE checks, the choice of a tap and the counters' session, at concrete runs.
use emac_zero.Base.{
  [], false, if◌then◌else◌, length, refl, true, ℕ, ◌*◌, ◌++◌, ◌+◌, ◌<◌, ◌==◌, ◌^◌, ◌∷◌, ◌≡◌, ◌≤◌,
  ◌⊎◌,
}
use emac_zero.Base.Py.{ok}
use emac_zero.Counters.Refusals.{MayWrite, eio_session-Writes}
use emac_zero.Counters.Sessions.{EioSession, eio_session}
use emac_zero.Selftest.Pause.{
  XonRun, above_low, below_high, can_tell, choose_attempt, continuous, frame_ns, full_ns, gap_ns,
  honored_checks, ignored_checks, is_valid, last_start, min_quanta, near_pause, no_stall,
  pause_fails, pauses_back, quanta_allowed, quantum_ns, xon_checks,
}
use emac_zero.Selftest.Results.{RunStatus, clean, count_fails, gigabit}
use emac_zero.Selftest.Runs.{IsRunIn, count_up, longest_run-IsRunIn}
use emac_zero.Selftest.Stalls.{pause_fails-zero}
use emac_zero.Selftest.Taps.{longest_run}

-- A run with this longest stall and this many PAUSE frames back.
abbrev run_with : ℕ → ℕ → RunStatus
run_with stall pauses = record {
  tx_frames = 9;
  rx_ok = 9;
  rx_ok_big = 1;
  rx_bad = 0;
  rx_terror = 0;
  seq_gap = 0;
  max_ok_len = 9014;
  first_bad_len = 0;
  first_bad_seq = 0;
  init_done = 1;
  run = 0;
  mmcm_locked = 1;
  idelay_rdy = 1;
  marker = 0xB0C;
  speed = 0;
  tap = 4;
  pause_rx_en = 1;
  max_gap = stall;
  pause_ok = pauses;
  pause_bad = 0;
}

-- The first attempt has a pause that ran out; the second has not.
abbrev attempts : ℕ → XonRun
attempts k = record {
  final = run_with 3125000 3;
  first = (0, 1000000);
  more = (20000000, 21000000) ∷ [];
  xon = if k == 1 then (60000000, 61000000) else (25000000, 26000000);
}

pause_fails-zero_example :
    let x = choose_attempt gigabit attempts 2 1 in
    (gap_ns (run_with 100 1) < gap_ns (run_with 524288 1))
    × (is_valid gigabit x ≡ true)
    × ((can_tell gigabit x ≡ false)
        ⊎ (gap_ns x.final + x.first.1 + 2 * frame_ns gigabit
            < last_start x.first x.more + full_ns gigabit))
unfolding quanta_allowed min_quanta pause_fails count_fails honored_checks ignored_checks xon_checks
    clean pauses_back near_pause no_stall gap_ns is_valid continuous choose_attempt above_low
    below_high can_tell last_start frame_ns quantum_ns
pause_fails-zero_example =
    pause_fails-zero gigabit 0x2000 (run_with 524288 1) (run_with 100 1) attempts refl refl

longest_run-IsRunIn_example :
    let taps = (2 ∷ 9 ∷ []) ++ (count_up 12 3 ++ (20 ∷ 21 ∷ [])) in
    IsRunIn (longest_run taps) taps × (3 ≤ length (longest_run taps))
longest_run-IsRunIn_example = longest_run-IsRunIn (2 ∷ 9 ∷ []) (20 ∷ 21 ∷ []) 12 3

-- A session on the loopback build, whose marker is 0x106.
abbrev other_build : EioSession
other_build = record {
  controller = ok tt;
  connect = ok tt;
  widths = (256, 8);
  reads = λ k. ok (0x106 * 2 ^ 244);
  reads_after = λ k. ok 0;
  read_back = λ k. ok 0;
  close = ok tt;
}

eio_session-Writes_example : ((eio_session other_build true).1 ≡ []) ⊎ MayWrite other_build true
eio_session-Writes_example = eio_session-Writes other_build true
