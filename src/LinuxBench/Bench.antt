-- ===== src/LinuxBench/Bench.antt =====
-- `iperf3`, `run_test`, and the tests and the exit code of `main`. The texts of the report are left
-- out.
use emac_zero.Base.{
  Bool, List, Option, [], false, if◌then◌else◌, none, some, suc, true, zero, ℕ, ◌&&◌, ◌++◌, ◌+◌,
  ◌∷◌,
}
use emac_zero.Base.Py.{PyError, Result, err, ok, runtime_error, value_error, ◌>>=◌, ◌>>◌}
use emac_zero.Base.Text.{Line, codes, same_text}
use emac_zero.LinuxBench.Console.{Answer, board_run}
use emac_zero.LinuxBench.Ledger.{Agreement, accounting, agree, differ, invalid}
use emac_zero.LinuxBench.Snapshot.{Snap, snapshot}

-- One run of the client: its data, an error that says "busy", another error, or what the run raises.
pub data Attempt (D : Type 0) : Type 0 where
  data_of : D → Attempt D
  busy other : Attempt D
  raised : PyError → Attempt D

module _ {D : Type 0} where
  -- The loop of `iperf3` from attempt `k` on, `left` more after it.
  unfoldable pub iperf_loop : (ℕ → Attempt D) → ℕ → ℕ → Result D
  iperf_loop runs zero k = elim (runs k) [
    | data_of d ↦ ok d
    | busy ↦ err runtime_error
    | other ↦ err runtime_error
    | raised e ↦ err e
  ]
  iperf_loop runs (suc left) k =
      let rest = iperf_loop runs left (k + 1) in
      elim (runs k) [
        | data_of d ↦ ok d
        | busy ↦ rest
        | other ↦ err runtime_error
        | raised e ↦ err e
      ]

  unfoldable pub iperf3 : (ℕ → Attempt D) → Result D
  iperf3 runs = iperf_loop runs 2 0

-- The arguments --time, --soak and --udp-rate, as texts.
pub record Options : Type 0 where
  pub time : Line
  pub soak : Line
  pub udp_rate : Line

-- The options of the client for a test; a test of another name is a ValueError.
unfoldable pub test_cmd : Options → Line → Result (List Line)
test_cmd o name =
    let tcp = codes "-t" ∷ o.time ∷ [] in
    let udp =
      codes "-u" ∷ codes "-b" ∷ o.udp_rate ∷ codes "-l" ∷ codes "1472" ∷ codes "-t" ∷ o.time ∷ [] in
    if same_text name (codes "tcp-rx")
    then ok tcp
    else if same_text name (codes "tcp-tx")
    then ok (tcp ++ codes "-R" ∷ [])
    else if same_text name (codes "udp-rx")
    then ok udp
    else if same_text name (codes "udp-tx")
    then ok (udp ++ codes "-R" ∷ [])
    else if same_text name (codes "soak")
    then ok (codes "-t" ∷ o.soak ∷ codes "--bidir" ∷ [])
    else if same_text name (codes "bidir")
    then ok (codes "-t" ∷ o.time ∷ codes "--bidir" ∷ [])
    else err value_error

-- A test of --tests: its name, what the board gives before it, the runs of the client with the given
-- options, the reading of the figures out of its data, and what the board gives after it and on dmesg.
pub record Trial (D : Type 0) : Type 0 where
  pub name : Line
  pub before : Answer
  pub client : List Line → ℕ → Attempt D
  pub figures : D → Result (Unit {0})
  pub after : Answer
  pub kernel : Answer

unfoldable pub read_snapshot : Answer → Result Snap
read_snapshot answer = board_run answer >>= λ out. snapshot out

module _ {D : Type 0} (o : Options) where
  unfoldable pub run_bench_test : Trial D → Result (Unit {0})
  run_bench_test t = do cmd ← test_cmd o t.name; d ← iperf3 (t.client cmd); t.figures d

  -- The body of the loop over the tests, with a board.
  unfoldable pub run_trial : Trial D → Result Agreement
  run_trial t = do
    before ← read_snapshot t.before
    run_bench_test t
    after ← read_snapshot t.after
    accounting before after t.kernel

  -- The loop over the tests, with a board or without.
  unfoldable pub verdicts : Bool → List (Trial D) → Result (List Agreement)
  verdicts board [] = ok []
  verdicts true (t ∷ ts) = do v ← run_trial t; vs ← verdicts true ts; ok (v ∷ vs)
  verdicts false (t ∷ ts) = do run_bench_test t; verdicts false ts

-- v == "agree"
abbrev pub is_agree : Agreement → Bool
is_agree agree = true
is_agree differ = false
is_agree invalid = false

unfoldable pub all_agree : List Agreement → Bool
all_agree [] = true
all_agree (v ∷ vs) = is_agree v && all_agree vs

-- The board of --serial or --ssh: its constructor, what it gives on the first command, and its close.
pub record Target : Type 0 where
  pub opened : Result (Unit {0})
  pub info : Answer
  pub closed : Result (Unit {0})

-- What else `main` calls: the board, if one is given, the version of the client, and the writing of
-- the report.
pub record Setting : Type 0 where
  pub board : Option Target
  pub version : Result (Unit {0})
  pub report : Result (Unit {0})

unfoldable pub start_target : Option Target → Result (Unit {0})
start_target none = ok tt
start_target (some b) = do b.opened; out ← board_run b.info; ok tt

unfoldable pub close_target : Option Target → Result (Unit {0})
close_target none = ok tt
close_target (some b) = b.closed

abbrev pub has_board : Option Target → Bool
has_board none = false
has_board (some b) = true

unfoldable pub main_bench : {D : Type 0} → Options → Setting → List (Trial D) → Result ℕ
main_bench o s ts = do
  start_target s.board
  s.version
  vs ← verdicts o (has_board s.board) ts
  close_target s.board
  s.report
  ok (if all_agree vs then 0 else 1)
