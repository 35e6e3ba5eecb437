-- ===== src/Cdc/Transmit.antt =====
-- What the transmit monitor infers from the length of a span.
use native.Mathlib.Nat.{div-lt_iff_lt-mul}
use emac_zero.Base.{
  Bool, List, [], arith, false, length, ltb, refl, suc, true, ℕ, ◌*◌, ◌++◌, ◌+◌, ◌-◌, ◌/◌, ◌<◌,
  ◌==◌, ◌∷◌, ◌≡◌, ◌≤◌,
}
use emac_zero.Base.Predicates.{All}
use emac_zero.Base.Py.{Bytes}
use emac_zero.Cdc.{Cycle, TxMonitor, idle_cycle, tx_collect, tx_record, tx_run, tx_sample}

-- The monitor with a span of `k` cycles behind it, at a period other than 1.
abbrev pub spanning : ℕ → List Bytes → List ℕ → List ℕ → List (List ℕ) → ℕ → Bool → ℕ → TxMonitor
spanning p frames lens spans ers n en k = record {
  period = p;
  frames = frames;
  frame_lens = lens;
  frame_spans = spans;
  frame_ers = ers;
  count = n;
  prev_en = en;
  span = k;
  cur = [];
  cur_er = [];
}

module _ (p : ℕ) (frames : List Bytes) (lens spans : List ℕ) (ers : List (List ℕ)) (n : ℕ)
    (slow : 2 ≤ p) where
  -- At the slower speeds only the span is kept.
  span_grows :
      (held : List Cycle) (rest : List Cycle) (k : ℕ)
      → All (λ c. c.valid ≡ true) held
      → tx_run (spanning p frames lens spans ers n true k) (held ++ rest)
        ≡ tx_run (spanning p frames lens spans ers n true (k + length held)) rest
  unfolding tx_run tx_sample tx_collect
  span_grows [] rest k h = let z : k + 0 ≡ k = omega arith in rw z refl
  span_grows (c ∷ cs) rest k h =
      let q : (p == 1) ≡ false = ground arith in
      let z : k + suc (length cs) ≡ k + 1 + length cs = omega arith in
      rw (h.0, q, z) (span_grows cs rest (k + 1) h.1)

  bytes_in : (k bytes : ℕ) → (bytes - 1) * p ≤ k → k < bytes * p → k / p + 1 ≡ bytes
  bytes_in k bytes low high =
      let under : k / p < bytes = (div-lt_iff_lt-mul {k = p} (omega arith)).1 high in
      let over : k / p < bytes - 1 → k < (bytes - 1) * p =
        (div-lt_iff_lt-mul {k = p} {x = k} {y = bytes - 1} (omega arith)).0 in
      ground (arith, over)

  span_recorded :
      (k bytes : ℕ)
      → 0 < k
      → k / p + 1 ≡ bytes
      → tx_record (spanning p frames lens spans ers n true (1 + k))
        ≡ spanning p frames (lens ++ bytes ∷ []) (spans ++ (1 + k) ∷ []) ers (n + 1) true (1 + k)
  unfolding tx_record
  span_recorded k bytes pos d =
      let q : (p == 1) ≡ false = ground arith in
      let l : ltb 1 (1 + k) ≡ true = ground arith in
      let e : 1 + k - 1 ≡ k = omega arith in rw (l, q, e, d) refl

  -- At a period of 2 or more, where a span of at least 2 cycles holds each byte but the last for
  -- the whole period and the last for any part of it, the monitor records one frame of as many
  -- bytes as were sent.
  pub tx_run-span :
      (held : List Cycle) (bytes : ℕ)
      → All (λ c. c.valid ≡ true) held
      → 2 ≤ length held
      → (bytes - 1) * p < length held
      → length held ≤ bytes * p
      → tx_run (spanning p frames lens spans ers n false 0) (held ++ idle_cycle ∷ [])
        ≡ spanning p frames (lens ++ bytes ∷ []) (spans ++ length held ∷ []) ers (n + 1) false 0
  unfolding tx_run tx_sample tx_collect
  tx_run-span [] bytes h two low high = absurd (omega arith)
  tx_run-span (c ∷ cs) bytes h two low high =
      let q : (p == 1) ≡ false = ground arith in
      let g = span_grows cs (idle_cycle ∷ []) 1 h.1 in
      let d = bytes_in (length cs) bytes (omega arith) (omega arith) in
      let r = span_recorded (length cs) bytes (omega arith) d in
      let z : 1 + length cs ≡ suc (length cs) = omega arith in rw (h.0, q, g) (rw (r, z) refl)
