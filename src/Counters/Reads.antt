-- ===== src/Counters/Reads.antt =====
-- Which value `read_eio` takes.
use native.Mathlib.Decide.{ℕ_discrete}
use emac_zero.Base.{
  ap, none, sym, ◌∙◌, arith, false, inl, inr, refl, some, suc, true, zero, ℕ, ◌+◌, ◌<◌, ◌==◌, ◌≡◌,
  ◌≢◌, ◌≤◌, ◌⊎◌,
}
use emac_zero.Base.Py.{PyError, Result, err, ok, runtime_error}
use emac_zero.Counters.{Fields, decode_fields, is_prev, read_eio, read_loop}

module _ (reads : ℕ → Result ℕ) where
  -- Two reads in a row that give different values.
  abbrev pub Differ : ℕ → Type 0
  Differ j = (a : ℕ) × (b : ℕ) × (reads j ≡ ok a) × (reads (j + 1) ≡ ok b) × (a ≢ b)

  abbrev pub AllDiffer : ℕ → ℕ → Type 0
  AllDiffer i k = (j : ℕ) → i ≤ j → j < k → Differ j

  -- The reads after the one at `i`: the first that gives the value of the one before it, or that
  -- raises, or neither before `end`.
  abbrev pub Taken : ℕ → ℕ → Result Fields → Type 0
  Taken i end r =
      ((k : ℕ) × (raw : ℕ) × (k + 1 < end)
        × AllDiffer i k
        × (reads k ≡ ok raw)
        × (reads (k + 1) ≡ ok raw)
        × (r ≡ ok (decode_fields raw)))
      ⊎ (((k : ℕ) × (e : PyError) × (k + 1 < end)
            × AllDiffer i k
            × (reads (k + 1) ≡ err e)
            × (r ≡ err e))
          ⊎ ((k : ℕ) × (k + 1 ≡ end) × AllDiffer i k × (r ≡ err runtime_error)))

  none_before : (i : ℕ) → AllDiffer i i
  none_before i j h l = absurd (omega arith)

  one_more : (i k : ℕ) → Differ i → AllDiffer (i + 1) k → AllDiffer i k
  one_more i k d g j h l = elim (ℕ_discrete j i) [ yes q ↦ rw q d | no q ↦ g j (omega arith) l ]

  later_Taken : (i end : ℕ) (r : Result Fields) → Differ i → Taken (i + 1) end r → Taken i end r
  later_Taken i end r d (inl (k, raw, l, g, a, b, c)) = inl (k, raw, l, one_more i k d g, a, b, c)
  later_Taken i end r d (inr (inl (k, e, l, g, a, b))) = inr (inl (k, e, l, one_more i k d g, a, b))
  later_Taken i end r d (inr (inr (k, l, g, rest))) = inr (inr (k, l, one_more i k d g, rest))

  loop-Taken :
      (rounds i raw : ℕ)
      → reads i ≡ ok raw
      → Taken i (i + 1 + rounds) (read_loop reads rounds (i + 1) (some raw))
  unfolding read_loop is_prev
  loop-Taken zero i raw e = inr (inr (i, omega arith, none_before i, refl))
  loop-Taken (suc n) i raw e = by_read (reads (i + 1)) refl (loop-Taken n (i + 1))
    where
      by_read :
          (r : Result ℕ)
          → reads (i + 1) ≡ r
          → ((next : ℕ)
              → reads (i + 1) ≡ ok next
              → Taken (i + 1) (i + 1 + 1 + n) (read_loop reads n (i + 1 + 1) (some next)))
          → Taken i (i + 1 + suc n) (read_loop reads (suc n) (i + 1) (some raw))
      by_read (err x) q ih = inr (inl (i, x, omega arith, none_before i, q, rw (q, read_loop) refl))
      by_read (ok next) q ih = elim (ℕ_discrete next raw) [
        | yes same ↦
            let t : (next == raw) ≡ true = ground arith in
            inl (
              i,
              raw,
              omega arith,
              none_before i,
              e,
              q ∙ ap ok same,
              rw (q, read_loop, t) (ap (λ x. ok (decode_fields x)) same),
            )
        | no other ↦
            let f : (next == raw) ≡ false = ground arith in
            let later : i + 1 + 1 + n ≡ i + 1 + suc n = omega arith in
            rw (← later) (
              rw (q, read_loop, f)
                (later_Taken i (i + 1 + 1 + n) _ (raw, next, e, q, λ h. other (sym h)) (ih next q)))
      ]

  -- Among ten reads, `read_eio` decodes the first value that two reads in a row give; it raises what
  -- the first failing read raises if that comes before, and RuntimeError if neither comes.
  pub read_eio_lem :
      ((e : PyError) × (reads 0 ≡ err e) × (read_eio reads ≡ err e)) ⊎ Taken 0 10 (read_eio reads)
  unfolding read_eio read_loop is_prev
  read_eio_lem = by_first (reads 0) refl
    where
      by_first :
          (r : Result ℕ)
          → reads 0 ≡ r
          → ((e : PyError) × (reads 0 ≡ err e) × (read_loop reads 10 0 none ≡ err e))
            ⊎ Taken 0 10 (read_loop reads 10 0 none)
      by_first (err e) q = inl (e, q, rw (q, read_loop) refl)
      by_first (ok raw) q = inr (rw (q, read_loop) (loop-Taken 9 0 raw q))
