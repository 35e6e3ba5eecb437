-- ===== src/Loopback/Verdicts.antt =====
-- The exit code as a verdict on the rows.
use emac_zero.Base.{List, [], arith, if◌then◌else◌, refl, true, ℕ, ◌+◌, ◌↔◌, ◌∷◌, ◌≡◌, ◌≢◌}
use emac_zero.Base.Predicates.{All}
use emac_zero.Loopback.Program.{count_rows, exit_code, get_count, same_verdict, set_count}
use emac_zero.Loopback.Status.{TestName}
use emac_zero.Session.{Verdict, fail, info, pass, skip}

abbrev pub NoFail : List (Verdict × TestName) → Type 0
NoFail rows = All (λ row. row.0 ≢ fail) rows

fail_test : (v : Verdict) → (same_verdict fail v ≡ true) ↔ (v ≡ fail)
unfolding same_verdict
fail_test pass = (λ e. cc, λ e. cc)
fail_test fail = (λ e. refl, λ e. refl)
fail_test info = (λ e. cc, λ e. cc)
fail_test skip = (λ e. cc, λ e. cc)

-- What counting one row does to the count of failures.
count_step :
    (v : Verdict) (n : ℕ) (counts : List (Verdict × ℕ))
    → get_count fail (set_count v n counts)
      ≡ (if same_verdict fail v then n else get_count fail counts)
unfolding get_count set_count same_verdict
count_step pass n [] = refl
count_step fail n [] = refl
count_step info n [] = refl
count_step skip n [] = refl
count_step pass n ((pass, k) ∷ counts) = refl
count_step pass n ((fail, k) ∷ counts) = refl
count_step pass n ((info, k) ∷ counts) = count_step pass n counts
count_step pass n ((skip, k) ∷ counts) = count_step pass n counts
count_step fail n ((pass, k) ∷ counts) = count_step fail n counts
count_step fail n ((fail, k) ∷ counts) = refl
count_step fail n ((info, k) ∷ counts) = count_step fail n counts
count_step fail n ((skip, k) ∷ counts) = count_step fail n counts
count_step info n ((pass, k) ∷ counts) = count_step info n counts
count_step info n ((fail, k) ∷ counts) = refl
count_step info n ((info, k) ∷ counts) = refl
count_step info n ((skip, k) ∷ counts) = count_step info n counts
count_step skip n ((pass, k) ∷ counts) = count_step skip n counts
count_step skip n ((fail, k) ∷ counts) = refl
count_step skip n ((info, k) ∷ counts) = count_step skip n counts
count_step skip n ((skip, k) ∷ counts) = refl

abbrev failures : List (Verdict × TestName) → ℕ
failures [] = 0
failures ((v, t) ∷ rows) = (if same_verdict fail v then 1 else 0) + failures rows

count_rows-failures :
    (rows : List (Verdict × TestName)) (counts : List (Verdict × ℕ))
    → get_count fail (count_rows rows counts) ≡ get_count fail counts + failures rows
unfolding count_rows same_verdict
count_rows-failures [] counts = omega arith
count_rows-failures ((pass, t) ∷ rows) counts =
    let n = get_count pass counts + 1 in
    omega (arith, count_rows-failures rows (set_count pass n counts), count_step pass n counts)
count_rows-failures ((fail, t) ∷ rows) counts =
    let n = get_count fail counts + 1 in
    omega (arith, count_rows-failures rows (set_count fail n counts), count_step fail n counts)
count_rows-failures ((info, t) ∷ rows) counts =
    let n = get_count info counts + 1 in
    omega (arith, count_rows-failures rows (set_count info n counts), count_step info n counts)
count_rows-failures ((skip, t) ∷ rows) counts =
    let n = get_count skip counts + 1 in
    omega (arith, count_rows-failures rows (set_count skip n counts), count_step skip n counts)

failures_iff : (rows : List (Verdict × TestName)) → (failures rows ≡ 0) ↔ NoFail rows
unfolding same_verdict
failures_iff [] = (λ e. tt, λ e. refl)
failures_iff ((pass, t) ∷ rows) = (
  λ e. ((λ q. cc), (failures_iff rows).0 (omega arith)),
  λ g. omega (arith, (failures_iff rows).1 g.1),
)
failures_iff ((info, t) ∷ rows) = (
  λ e. ((λ q. cc), (failures_iff rows).0 (omega arith)),
  λ g. omega (arith, (failures_iff rows).1 g.1),
)
failures_iff ((skip, t) ∷ rows) = (
  λ e. ((λ q. cc), (failures_iff rows).0 (omega arith)),
  λ g. omega (arith, (failures_iff rows).1 g.1),
)
failures_iff ((fail, t) ∷ rows) = (λ e. absurd (omega arith), λ g. absurd (g.0 refl))

-- The exit code of the rows is 0 exactly if no row has the verdict FAIL.
pub exit_code-zero_iff : (rows : List (Verdict × TestName)) → (exit_code rows ≡ 0) ↔ NoFail rows
unfolding exit_code get_count
exit_code-zero_iff rows =
    let e : get_count fail (count_rows rows []) ≡ failures rows =
      omega (arith, count_rows-failures rows []) in
    (λ z. (failures_iff rows).0 (ground arith), λ g. ground (arith, (failures_iff rows).1 g))
