-- ===== src/Loopback/Program.antt =====
-- `main`: the names of the tests, the session, and the exit code.
use Prim.Native.String.{String}
use mathlib.Core.List.{reverse}
use emac_zero.Base.{Bool, List, [], false, if◌then◌else◌, true, ℕ, ◌+◌, ◌==◌, ◌∷◌}
use emac_zero.Base.Py.{Result, err, ok}
use emac_zero.Loopback.Board.{Lb, write_word}
use emac_zero.Loopback.Names.{find_tests}
use emac_zero.Loopback.Scripts.{Args, run_test}
use emac_zero.Loopback.Status.{TestName, links}
use emac_zero.Session.{Host, Verdict, World, fail, info, pass, pure, skip, try_finally, ◌>>◌}

-- names.remove("links"), which takes the first only and does nothing here if there is none
unfoldable pub remove_links : List TestName → List TestName
remove_links [] = []
remove_links (links ∷ ts) = ts
remove_links (t ∷ ts) = t ∷ remove_links ts

unfoldable pub run_tests : Host → List TestName → Args → Lb (Unit {0})
run_tests h [] a = pure tt
run_tests h (t ∷ ts) a = do run_test h t a; run_tests h ts a

-- `close`
unfoldable pub close_board : Host → Lb (Unit {0})
close_board h w = let (r, w1) = write_word h 0 w in (r, record w1 { closed = true })

unfoldable pub session : Host → List TestName → Args → Lb (Unit {0})
session h ts a = try_finally (run_tests h ts a) (close_board h)

abbrev pub new_world : World TestName
new_world = record {
  ctrl = 0;
  written = [];
  reads = 0;
  calls = 0;
  now = 0;
  closed = false;
  rows = [];
}

unfoldable pub same_verdict : Verdict → Verdict → Bool
same_verdict pass pass = true
same_verdict fail fail = true
same_verdict info info = true
same_verdict skip skip = true
same_verdict _ _ = false

-- counts.get(v, 0)
unfoldable pub get_count : Verdict → List (Verdict × ℕ) → ℕ
get_count v [] = 0
get_count v ((u, n) ∷ counts) = if same_verdict v u then n else get_count v counts

-- counts[v] = n
unfoldable pub set_count : Verdict → ℕ → List (Verdict × ℕ) → List (Verdict × ℕ)
set_count v n [] = (v, n) ∷ []
set_count v n ((u, k) ∷ counts) =
    let rest = set_count v n counts in if same_verdict v u then (u, n) ∷ counts else (u, k) ∷ rest

-- The loop over the rows.
unfoldable pub count_rows : List (Verdict × TestName) → List (Verdict × ℕ) → List (Verdict × ℕ)
count_rows [] counts = counts
count_rows ((v, t) ∷ rows) counts = count_rows rows (set_count v (get_count v counts + 1) counts)

-- The rows in the order of their tests; the exit code.
unfoldable pub exit_code : List (Verdict × TestName) → ℕ
exit_code rows = if get_count fail (count_rows rows []) == 0 then 0 else 1

-- `main` after the session: the exit code of the rows, or the exception.
unfoldable pub conclude : Result (Unit {0}) × World TestName → Result ℕ × World TestName
conclude (ok u, w) = (ok (exit_code (reverse w.rows)), w)
conclude (err e, w) = (err e, w)

-- `Board(…)`, which can raise, and `main` after it
unfoldable pub after_connect :
    Result (Unit {0}) → Result ℕ × World TestName → Result ℕ × World TestName
after_connect (err e) rest = (err e, new_world)
after_connect (ok u) rest = rest

-- `main` after the check of the names: what the process ends with, and the state that it leaves.
unfoldable pub run_session : Host → List TestName → Args → Result ℕ × World TestName
run_session h ts a =
    after_connect h.connect (conclude (session h (links ∷ remove_links ts) a new_world))

-- `main` from the outcome of the check of the names on
unfoldable pub after_names : Host → Args → Result (List TestName) → Result ℕ × World TestName
after_names h a (err e) = (err e, new_world)
after_names h a (ok ts) = run_session h ts a

unfoldable pub main_run : Host → List String → Args → Result ℕ × World TestName
main_run h names a = after_names h a (find_tests names)
