-- ===== src/Counters/Retries.antt =====
-- Which attempt's outcome `retry` gives.
use native.Mathlib.Decide.{ℕ_discrete}
use emac_zero.Base.{
  Bool-cases, arith, false, inl, inr, refl, suc, true, zero, ℕ, ◌+◌, ◌<◌, ◌≡◌, ◌≤◌, ◌⊎◌,
}
use emac_zero.Base.Py.{PyError, Result, err, ok}
use emac_zero.Counters.{retry, retry_loop, retryable}

-- The attempts before `k` failed with an error that is retried.
abbrev pub Failed : {A : Type 0} → (ℕ → Result A) → ℕ → ℕ → Type 0
Failed session from k =
    (j : ℕ) → from ≤ j → j < k → (e : PyError) × (session j ≡ err e) × (retryable e ≡ true)

-- The outcome is final: it is not an error that is retried.
abbrev pub IsFinal : {A : Type 0} → Result A → Type 0
IsFinal (ok a) = Unit {0}
IsFinal (err e) = retryable e ≡ false

-- The outcome is that of attempt `k`: those before it failed, and it is the last or final.
abbrev pub Outcome : {A : Type 0} → (ℕ → Result A) → ℕ → ℕ → Result A → Type 0
Outcome session from end r =
    (k : ℕ) × (from ≤ k)
    × (k ≤ end)
    × (r ≡ session k)
    × Failed session from k
    × ((k ≡ end) ⊎ IsFinal (session k))

none_before : {A : Type 0} (session : ℕ → Result A) (k : ℕ) → Failed session k k
none_before session k j h l = absurd (omega arith)

one_more :
    {A : Type 0} (session : ℕ → Result A) (from k : ℕ) (x : PyError)
    → session from ≡ err x
    → retryable x ≡ true
    → Failed session (from + 1) k
    → Failed session from k
one_more session from k x e t g j h l = elim (ℕ_discrete j from) [
  | yes q ↦ rw q (x, e, t)
  | no q ↦ g j (omega arith) l
]

loop-Outcome :
    {A : Type 0} (session : ℕ → Result A) (left from : ℕ)
    → Outcome session from (from + left) (retry_loop session left from)
unfolding retry_loop
loop-Outcome session zero from =
    (from, omega arith, omega arith, refl, none_before session from, inl (omega arith))
loop-Outcome {A} session (suc left) from =
    go (session from) refl (loop-Outcome session left (from + 1))
  where
    go :
        (r : Result A)
        → session from ≡ r
        → Outcome session (from + 1) (from + 1 + left) (retry_loop session left (from + 1))
        → Outcome session from (from + suc left) (retry_loop session (suc left) from)
    go (ok a) e ih = (
      from,
      omega arith,
      omega arith,
      rw (e, retry_loop) refl,
      none_before session from,
      inr (rw e tt),
    )
    go (err x) e (k, a, b, c, g, d) = elim (Bool-cases (retryable x)) [
      | inr f ↦ (
        from,
        omega arith,
        omega arith,
        rw (e, retry_loop, f) refl,
        none_before session from,
        inr (rw e f),
      )
      | inl t ↦ (
        k,
        omega arith,
        omega arith,
        rw (e, retry_loop, t) c,
        one_more session from k x e t g,
        elim d [ inl q ↦ inl (omega arith) | inr q ↦ inr q ],
      )
    ]

-- `retry` gives the outcome of one of three attempts, value or error: the first that did not fail
-- with RuntimeError or OSError, or the third.
pub retry_lem :
    {A : Type 0} (session : ℕ → Result A)
    → (k : ℕ) × (0 ≤ k)
      × (k ≤ 2)
      × (retry session ≡ session k)
      × ((j : ℕ) → 0 ≤ j → j < k → (e : PyError) × (session j ≡ err e) × (retryable e ≡ true))
      × ((k ≡ 2) ⊎ IsFinal (session k))
unfolding retry
retry_lem session = loop-Outcome session 2 0
