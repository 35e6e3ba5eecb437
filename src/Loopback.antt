-- ===== src/Loopback.antt =====
-- fpga/zcu106/scripts/sfp_lb_test.py: the SFP loopback tests. Text that is only shown is left out:
-- a row keeps its verdict and its test. Times are in milliseconds.
pub mod Status
pub mod Board
pub mod Checks
pub mod Scripts
pub mod Names
pub mod Program
pub mod Quiet
pub mod Idle
pub mod Later
pub mod History
pub mod Verdicts
pub mod Passed
pub mod Waits
pub mod Window
pub mod Safe
pub mod Outcome
