-- ===== src/Bench/Checks.antt =====
-- sim/cocotb/lib/bench.py: Checks, and the VERSION that its three parts give. A detail is left out of
-- a check's name; the regular expression that finds the parts in rtl/version.vh is the library's.
pub mod Verdict
use emac_zero.Base.{Bool, List, [], bit_or, if◌then◌else◌, ℕ, ◌++◌, ◌+◌, ◌==◌, ◌∷◌}
use emac_zero.Base.Bits.{shl}
use emac_zero.Base.Py.{Result, assertion_error, err, ok}

-- Checks.passed and Checks.failed; a name stands for its message.
pub record BenchChecks {ℓ} (Name : Type ℓ) : Type ℓ where
  pub passed : ℕ
  pub failed : List Name

abbrev pub no_checks {ℓ} : {Name : Type ℓ} → BenchChecks Name
no_checks = record { passed = 0; failed = [] }

-- What a test hands to `check`, or to `eq` with the actual and the expected value.
pub data Checked {ℓ} (Name : Type ℓ) : Type ℓ where
  checked : Name → Bool → Checked Name
  compared : Name → ℕ → ℕ → Checked Name

unfoldable pub bench_check {ℓ} : {Name : Type ℓ} → BenchChecks Name → Name → Bool → BenchChecks Name
bench_check c name cond =
    if cond then record c { passed = c.passed + 1 } else record c { failed = c.failed ++ name ∷ [] }

unfoldable pub bench_eq {ℓ} : {Name : Type ℓ} → BenchChecks Name → Name → ℕ → ℕ → BenchChecks Name
bench_eq c name actual expected = bench_check c name (actual == expected)

unfoldable pub run_checked {ℓ} :
    {Name : Type ℓ} → BenchChecks Name → List (Checked Name) → BenchChecks Name
run_checked c [] = c
run_checked c (checked name cond ∷ rest) = run_checked (bench_check c name cond) rest
run_checked c (compared name a e ∷ rest) = run_checked (bench_eq c name a e) rest

-- assert not self.failed; the number in the message of success is returned.
unfoldable pub unless_failed {ℓ} : {Name : Type ℓ} → ℕ → List Name → Result ℕ
unless_failed passed [] = ok passed
unless_failed passed (name ∷ names) = err assertion_error

unfoldable pub bench_finish {ℓ} : {Name : Type ℓ} → BenchChecks Name → Result ℕ
bench_finish c = unless_failed c.passed c.failed

-- `_version`, of the three parts
unfoldable pub version : ℕ → ℕ → ℕ → ℕ
version major minor id = bit_or (bit_or (shl major 24) (shl minor 16)) id
