-- ===== src/Throughput/Telescope.antt =====
-- The changes of a counter add up to what it gained from its first sample to its last.
use emac_zero.Base.{
  Bool-cases, List, [], ap, arith, if◌then◌else◌, inl, inr, refl, some, sym, ℕ, ◌+◌, ◌∙◌, ◌∷◌, ◌≡◌,
}
use emac_zero.Base.Text.{
  Dict, Line, insert, lookup, lookup-insert_ne, lookup-insert_self, same_text, same_text_iff,
  same_text_self,
}
use emac_zero.LinuxBench.Ledger.{above, below, diff}
use emac_zero.LinuxBench.Snapshot.{pos}
use emac_zero.Throughput.{Change, Sample, change_of, deltas_from, last_values, window_deltas}

-- The rises and the falls of a key.
abbrev pub rises : Line → List Change → ℕ
rises k [] = 0
rises k (c ∷ cs) = (if same_text k c.sample.key then above c.delta else 0) + rises k cs

abbrev pub falls : Line → List Change → ℕ
falls k [] = 0
falls k (c ∷ cs) = (if same_text k c.sample.key then below c.delta else 0) + falls k cs

diff_balance : (m n : ℕ) → above (diff m n) + n ≡ m + below (diff m n)
diff_balance m n = ground arith

some_same : {A : Type 0} {x y : A} → some x ≡ some y → x ≡ y
some_same e = cc

change_of-found :
    (last : Dict ℕ) (s : Sample) (v : ℕ)
    → lookup s.key last ≡ some v
    → change_of last s ≡ diff s.value v
unfolding change_of
change_of-found last s v e = rw (e, change_of) refl

change_of-first : (s : Sample) → change_of [] s ≡ pos 0
unfolding change_of lookup
change_of-first s = refl

deltas_from-balance :
    (k : Line) (samples : List Sample) (last : Dict ℕ) (v0 v1 : ℕ)
    → lookup k last ≡ some v0
    → lookup k (last_values last samples) ≡ some v1
    → v0 + rises k (deltas_from last samples) ≡ v1 + falls k (deltas_from last samples)
unfolding deltas_from last_values
deltas_from-balance k [] last v0 v1 a b = omega (arith, some_same (sym a ∙ b))
deltas_from-balance k (s ∷ samples) last v0 v1 a b =
    let next = insert s.key s.value last in
    elim (Bool-cases (same_text k s.key)) [
      | inr n ↦
          let ih =
            deltas_from-balance k samples next v0 v1 (lookup-insert_ne k s.key s.value last n ∙ a)
              b in
          rw n (omega (arith, ih))
      | inl y ↦
          let e : k ≡ s.key = (same_text_iff k s.key).0 y in
          let here : lookup k next ≡ some s.value =
            ap (λ j. lookup j next) e ∙ lookup-insert_self s.key s.value last in
          let d : change_of last s ≡ diff s.value v0 =
            change_of-found last s v0 (ap (λ j. lookup j last) (sym e) ∙ a) in
          let ih = deltas_from-balance k samples next s.value v1 here b in
          rw (y, d) (omega (arith, ih, diff_balance s.value v0))
    ]

-- From the first sample of a key on, its value there and the rises after it are its last value and
-- the falls after it, whatever samples of other keys stand between.
pub window_deltas-balance :
    (first : Sample) (samples : List Sample) (v1 : ℕ)
    → lookup first.key (last_values [] (first ∷ samples)) ≡ some v1
    → first.value + rises first.key (window_deltas (first ∷ samples))
      ≡ v1 + falls first.key (window_deltas (first ∷ samples))
unfolding window_deltas deltas_from last_values
window_deltas-balance first samples v1 e =
    let next = insert first.key first.value [] in
    let ih =
      deltas_from-balance first.key samples next first.value v1
        (lookup-insert_self first.key first.value []) e in
    rw (same_text_self first.key, change_of-first first) (omega (arith, ih))
