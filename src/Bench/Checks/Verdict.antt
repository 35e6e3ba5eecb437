-- ===== src/Bench/Checks/Verdict.antt =====
-- The verdict of `Checks`, and the version word.
use mathlib.Core.List.{append_assoc, append-nil}
use emac_zero.Base.{
  ==_iff, Bool-cases, List, [], ap, arith, bit_or, false, if◌then◌else◌, inl, inr, length, refl,
  sym, true, ℕ, ◌%◌, ◌*◌, ◌++◌, ◌+◌, ◌/◌, ◌<◌, ◌==◌, ◌^◌, ◌∙◌, ◌∷◌, ◌↔◌, ◌≡◌,
}
use emac_zero.Base.Bits.{bit_or_disjoint, shl}
use emac_zero.Base.Py.{assertion_error, err, ok}
use emac_zero.Bench.Checks.{
  BenchChecks, Checked, bench_check, bench_eq, bench_finish, checked, compared, no_checks,
  run_checked, unless_failed, version,
}

module _ {ℓ} {Name : Type ℓ} where
  -- What a check asks for.
  abbrev pub Holds : Checked Name → Type 0
  Holds (checked name cond) = cond ≡ true
  Holds (compared name a e) = a ≡ e

  abbrev pub AllHold : List (Checked Name) → Type 0
  AllHold [] = Unit {0}
  AllHold (c ∷ cs) = Holds c × AllHold cs

  -- The names of the checks that do not hold.
  abbrev pub misses : List (Checked Name) → List Name
  misses [] = []
  misses (checked name cond ∷ rest) = if cond then misses rest else name ∷ misses rest
  misses (compared name a e ∷ rest) = if a == e then misses rest else name ∷ misses rest

  run_checked-record :
      (cs : List (Checked Name)) (passed : ℕ) (failed : List Name)
      → (n : ℕ) × (run_checked (record { passed = passed; failed = failed }) cs
          ≡ record { passed = n; failed = failed ++ misses cs })
        × (n + length (misses cs) ≡ passed + length cs)
  unfolding run_checked bench_check bench_eq
  run_checked-record [] passed failed = (passed, rw (append-nil failed) refl, refl)
  run_checked-record (checked name true ∷ rest) passed failed =
      let (n, e, h) = run_checked-record rest (passed + 1) failed in (n, e, omega arith)
  run_checked-record (checked name false ∷ rest) passed failed =
      let (n, e, h) = run_checked-record rest passed (failed ++ name ∷ []) in
      (n, e ∙ rw (append_assoc failed (name ∷ []) (misses rest)) refl, omega arith)
  run_checked-record (compared name a b ∷ rest) passed failed = elim (Bool-cases (a == b)) [
    | inl y ↦
        let (n, e, h) = run_checked-record rest (passed + 1) failed in rw y (n, e, omega arith)
    | inr y ↦
        let (n, e, h) = run_checked-record rest passed (failed ++ name ∷ []) in
        rw y (n, e ∙ rw (append_assoc failed (name ∷ []) (misses rest)) refl, omega arith)
  ]

  misses_iff : (cs : List (Checked Name)) → (misses cs ≡ []) ↔ AllHold cs
  misses_iff [] = ((λ h. tt), (λ h. refl))
  misses_iff (checked name true ∷ rest) =
      ((λ h. (refl, (misses_iff rest).0 h)), (λ h. (misses_iff rest).1 h.1))
  misses_iff (checked name false ∷ rest) = ((λ h. cc), (λ h. absurd (differ h.0)))
    where
      differ : false ≡ true → ⊥
      differ e = cc
  misses_iff (compared name a b ∷ rest) = elim (Bool-cases (a == b)) [
    | inl y ↦
        rw y ((λ h. ((==_iff a b).0 y, (misses_iff rest).0 h)), (λ h. (misses_iff rest).1 h.1))
    | inr n ↦ rw n ((λ h. cc), (λ h. absurd (unequal n h.0)))
  ]
    where
      unequal : (a == b) ≡ false → a ≡ b → ⊥
      unequal n e = ground (arith, (==_iff a b).1 e)

  finish-ok : (c : BenchChecks Name) (n : ℕ) → c.failed ≡ [] → c.passed ≡ n → bench_finish c ≡ ok n
  unfolding bench_finish unless_failed
  finish-ok c n h k = rw (h, k) refl

  ok-finish : (passed n : ℕ) (failed : List Name) → unless_failed passed failed ≡ ok n → failed ≡ []
  unfolding unless_failed
  ok-finish passed n [] h = refl
  ok-finish passed n (x ∷ xs) h = cc

  failed-finish :
      (passed : ℕ) (failed : List Name)
      → (failed ≡ [] → ⊥)
      → unless_failed passed failed ≡ err assertion_error
  unfolding unless_failed
  failed-finish passed [] h = absurd (h refl)
  failed-finish passed (name ∷ names) h = refl

  -- Every check of a list is made, also after one that does not hold: the names of those that do not
  -- hold are kept, in their order, and the others are counted. `finish` reports the number of the
  -- checks exactly if every one of them holds, and otherwise fails with an AssertionError.
  pub bench_finish_iff :
      (cs : List (Checked Name))
      → ((run_checked no_checks cs).failed ≡ misses cs)
        × ((run_checked no_checks cs).passed + length (misses cs) ≡ length cs)
        × ((bench_finish (run_checked no_checks cs) ≡ ok (length cs)) ↔ AllHold cs)
        × ((AllHold cs → ⊥) → bench_finish (run_checked no_checks cs) ≡ err assertion_error)
  bench_finish_iff cs =
      let (n, e, h) = run_checked-record cs 0 [] in
      (
        ap (λ c. c.failed) e,
        rw (ap (λ c. c.passed) e) (omega (arith, h)),
        (
          (λ g. (misses_iff cs).0 (
              ok-finish n (length cs) (misses cs)
                (unfold bench_finish in sym (ap bench_finish e) ∙ g))),
          (λ g.
              let none = (misses_iff cs).1 g in
              let all : n ≡ length cs = omega (arith, ap length none) in
              ap bench_finish e
              ∙ finish-ok (record { passed = n; failed = misses cs }) (length cs) none all),
        ),
        (λ g.
            ap bench_finish e
            ∙ (unfold bench_finish in failed-finish n (misses cs) (λ m. g ((misses_iff cs).0 m)))),
      )

-- For parts that fit their fields, the version word holds each of them.
pub version-fields :
    (major minor id : ℕ)
    → minor < 2 ^ 8
    → id < 2 ^ 16
    → (version major minor id / 2 ^ 24 ≡ major)
      × (version major minor id / 2 ^ 16 % 2 ^ 8 ≡ minor)
      × (version major minor id % 2 ^ 16 ≡ id)
unfolding version
version-fields major minor id h k =
    let first : bit_or (shl major 24) (shl minor 16) ≡ shl (major * 2 ^ 8 + minor) 16 =
      bit_or_disjoint 24 major (shl minor 16) (omega arith) ∙ omega arith in
    let e : bit_or (bit_or (shl major 24) (shl minor 16)) id ≡ shl (major * 2 ^ 8 + minor) 16 + id =
      ap (λ (t : ℕ). bit_or t id) first ∙ bit_or_disjoint 16 (major * 2 ^ 8 + minor) id k in
    omega arith
