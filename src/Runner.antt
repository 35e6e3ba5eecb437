-- ===== src/Runner.antt =====
-- sim/cocotb/run.py: the suites that the test modules declare, the VHDL sources of a suite, the runs
-- that are asked for, and the exit code. The simulators are a parameter: the return code of each run.
pub mod Sources
pub mod Once
use emac_zero.Base.{
  Bool, List, Option, [], false, if◌then◌else◌, none, not, some, true, ℕ, ◌&&◌, ◌++◌, ◌+◌, ◌==◌,
  ◌||◌, ◌∷◌,
}
use emac_zero.Base.Text.{Dict, Line, codes, insert, lookup, same_text}
use emac_zero.Session.{is_some}

-- A suite's dict, as far as it is read here.
pub record Spec : Type 0 where
  pub keys : List Line
  pub skip_vhdl : Bool

-- SPEC_KEYS
abbrev pub spec_keys : List Line
spec_keys =
    codes "toplevel"
    ∷ codes "sources"
    ∷ codes "params"
    ∷ codes "target"
    ∷ codes "vhdl_sources"
    ∷ codes "env"
    ∷ codes "skip_vhdl"
    ∷ []

-- x in xs, of texts
unfoldable pub member : Line → List Line → Bool
member x [] = false
member x (y ∷ ys) = same_text x y || member x ys

unfoldable pub all_members : List Line → List Line → Bool
all_members [] ys = true
all_members (x ∷ xs) ys = member x ys && all_members xs ys

-- A suite of a module is refused if its name is declared already or it has an unknown key.
unfoldable pub found_good : Dict Spec → Dict Spec → Bool
found_good suites [] = true
found_good suites ((name, spec) ∷ own) =
    not (is_some (lookup name suites)) && all_members spec.keys spec_keys && found_good suites own

-- suites[name] = …, for each suite of a module
unfoldable pub add_found : Dict Spec → Dict Spec → Dict Spec
add_found suites [] = suites
add_found suites ((name, spec) ∷ own) = add_found (insert name spec suites) own

-- `discover`, from the modules' SUITES in the order of their paths: none for a module that cannot be
-- read. The suites, and the number of errors.
unfoldable pub discover : Dict Spec → ℕ → List (Option (Dict Spec)) → Dict Spec × ℕ
discover suites errors_so_far [] = (suites, errors_so_far)
discover suites errors_so_far (none ∷ files) = discover suites (errors_so_far + 1) files
discover suites errors_so_far (some own ∷ files) =
    let kept = discover (add_found suites own) errors_so_far files in
    let refused = discover suites (errors_so_far + 1) files in
    if found_good suites own then kept else refused

pub data Hdl : Type 0 where
  verilog vhdl : Hdl

-- The runs of a suite, without those it skips. The options admit only names that some module declares.
unfoldable pub suite_jobs : Dict Spec → Line → List Hdl → List (Line × Hdl)
suite_jobs suites name [] = []
suite_jobs suites name (verilog ∷ hdls) = (name, verilog) ∷ suite_jobs suites name hdls
suite_jobs suites name (vhdl ∷ hdls) =
    let rest = suite_jobs suites name hdls in
    elim (lookup name suites) [
      | none ↦ (name, vhdl) ∷ rest
      | some spec ↦ if spec.skip_vhdl then rest else (name, vhdl) ∷ rest
    ]

unfoldable pub jobs_of : Dict Spec → List Line → List Hdl → List (Line × Hdl)
jobs_of suites [] hdls = []
jobs_of suites (name ∷ names) hdls = suite_jobs suites name hdls ++ jobs_of suites names hdls

unfoldable pub any_failed : (Line × Hdl → ℕ) → List (Line × Hdl) → Bool
any_failed rc [] = false
any_failed rc (job ∷ jobs) = not (rc job == 0) || any_failed rc jobs

-- The exit code of `main`, where the names are not listed: `named` says that --suite was given, and `names` are those suites, or all
-- of them sorted.
unfoldable pub run_suites :
    List (Option (Dict Spec)) → Bool → List Line → List Hdl → (Line × Hdl → ℕ) → ℕ
run_suites files named names hdls rc =
    let (suites, refusals) = discover [] 0 files in
    let broken_fails = not (refusals == 0) && not named in
    if any_failed rc (jobs_of suites names hdls) || broken_fails then 1 else 0
