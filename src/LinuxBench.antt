-- ===== src/LinuxBench.antt =====
-- sw/linux/scripts/linux_bench.py: what the board answers over the console or over ssh, the counters of
-- a snapshot, the accounting, the tests and the exit code. Text is a list of code points; what the
-- board gives, the runs of iperf3 and the writing of the report are parameters, each a value or what
-- it raises.
pub mod Console
pub mod Snapshot
pub mod Ledger
pub mod Bench
pub mod Answers
pub mod Agreement
