-- ===== src/Selftest/Taps.antt =====
-- `longest_run` and the choice of the tap; the exit code.
use emac_zero.Base.{
  Bool, List, Option, [], false, get_elem?, if◌then◌else◌, length, ltb, none, some, suc, zero, ℕ,
  ◌++◌, ◌+◌, ◌/◌, ◌==◌, ◌∷◌,
}
use emac_zero.Selftest.Results.{RunStatus, clean}

-- cur[-1]
unfoldable pub last_of : List ℕ → Option ℕ
last_of [] = none
last_of (x ∷ []) = some x
last_of (x ∷ y ∷ ys) = last_of (y ∷ ys)

-- cur and tap == cur[-1] + 1
unfoldable pub follows : List ℕ → ℕ → Bool
follows cur tap = elim (last_of cur) [ none ↦ false | some l ↦ tap == l + 1 ]

unfoldable pub next_run : List ℕ → ℕ → List ℕ
next_run cur tap = if follows cur tap then cur ++ (tap ∷ []) else tap ∷ []

unfoldable pub better : List ℕ → List ℕ → List ℕ
better best cur = if ltb (length best) (length cur) then cur else best

unfoldable pub run_loop : List ℕ → List ℕ → List ℕ → List ℕ
run_loop best cur [] = best
run_loop best cur (tap ∷ taps) = run_loop (better best (next_run cur tap)) (next_run cur tap) taps

unfoldable pub longest_run : List ℕ → List ℕ
longest_run taps = run_loop [] [] taps

-- `sweep`: the taps whose run was clean, from tap `k` on.
unfoldable pub passing_taps : (ℕ → RunStatus) → ℕ → ℕ → List ℕ
passing_taps result zero k = []
passing_taps result (suc more) k =
    let rest = passing_taps result more (k + 1) in if clean (result k) then k ∷ rest else rest

unfoldable pub sweep : (ℕ → RunStatus) → List ℕ
sweep result = passing_taps result 32 0

-- The tap that `main` uses after a sweep, and the failure of a sweep that passes nowhere.
unfoldable pub choose_tap : Option ℕ → List ℕ → Option ℕ × ℕ
choose_tap asked [] = (asked, 1)
choose_tap none (w ∷ win) = (get_elem? (w ∷ win) (length (w ∷ win) / 2), 0)
choose_tap (some tap) (w ∷ win) = (some tap, 0)
