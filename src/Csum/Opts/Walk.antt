-- ===== src/Csum/Opts/Walk.antt =====
-- The walk of `ip4_opts_skip` decides the grammar.
use native.Mathlib.Decide.{dec_lt}
use emac_zero.Base.{
  Bool, [], ap, arith, drop, drop-all, false, get_or, length, refl, suc, true, zero, ℕ, ◌+◌, ◌<◌,
  ◌↔◌, ◌∙◌, ◌∷◌, ◌≡◌, ◌≤◌,
}
use emac_zero.Base.Py.{Bytes}
use emac_zero.Base.Slices.{drop-drop}
use emac_zero.Csum.Opts.{ip4_opts_skip, walk}
use emac_zero.Csum.Opts.Grammar.{
  Means, Round, Skip, Skip-Inv, advance, found, look, look-Means, stop,
}

drop-get_or : (i : ℕ) (xs : Bytes) → i < length xs → drop i xs ≡ get_or xs i 0 ∷ drop (i + 1) xs
drop-get_or i [] h = absurd (omega arith)
drop-get_or zero (x ∷ xs) h = refl
drop-get_or (suc i) (x ∷ xs) h =
    let e : suc i + 1 ≡ suc (i + 1) = omega arith in rw e (drop-get_or i xs (omega arith))

-- What the list holds from index `i` on.
from_two :
    (i : ℕ) (xs : Bytes)
    → i + 1 < length xs
    → drop i xs ≡ get_or xs i 0 ∷ get_or xs (i + 1) 0 ∷ drop (i + 1 + 1) xs
from_two i xs h =
    drop-get_or i xs (omega arith) ∙ ap (◌∷◌ (get_or xs i 0)) (drop-get_or (i + 1) xs h)

abbrev resume : ℕ → ℕ → Bytes → Round → Bool
resume f i opts stop = false
resume f i opts found = true
resume f i opts (advance k) = walk f (i + k) opts

walk-look : (f i : ℕ) (opts : Bytes) → walk (suc f) i opts ≡ resume f i opts (look (drop i opts))
unfolding walk look
walk-look f i opts = elim (dec_lt i (length opts)) [
  | no p ↦ rw (drop-all i opts (omega arith)) (ground arith)
  | yes p ↦ elim (dec_lt (i + 1) (length opts)) [
    | yes q ↦ rw (from_two i opts q) (ground arith)
    | no q ↦ rw (drop-get_or i opts p) (rw (drop-all (i + 1) opts (omega arith)) (ground arith))
  ]
]

walk_iff :
    (fuel i : ℕ) (opts : Bytes)
    → length opts ≤ i + fuel
    → (walk fuel i opts ≡ true) ↔ Skip (drop i opts)
unfolding walk
walk_iff zero i opts h =
    rw (drop-all i opts (omega arith), walk) ((λ e. absurd (cc e)), λ s. absurd (Skip-Inv s))
walk_iff (suc f) i opts h =
    rw (walk-look f i opts)
      (go (λ k. walk_iff f (i + k) opts) (look (drop i opts)) (look-Means (drop i opts)))
  where
    go :
        ((k : ℕ)
          → length opts ≤ i + k + f
          → (walk f (i + k) opts ≡ true) ↔ Skip (drop (i + k) opts))
        → (r : Round) → Means (drop i opts) r
        → (resume f i opts r ≡ true) ↔ Skip (drop i opts)
    go ih stop m = ((λ e. absurd (cc e)), λ s. absurd (m s))
    go ih found m = ((λ _. m), λ _. refl)
    go ih (advance k) (pos, m) =
        let (to, from) = ih k (omega arith) in
        ((λ e. m.1 (rw (drop-drop k i opts) (to e))), λ s. from (rw (← drop-drop k i opts) (m.0 s)))

-- The walk ends, and it reports a skip exactly where the options hold a source route before their
-- end, or an option with a length below 2.
pub ip4_opts_skip_iff : (opts : Bytes) → (ip4_opts_skip opts ≡ true) ↔ Skip opts
unfolding ip4_opts_skip
ip4_opts_skip_iff opts = walk_iff (length opts) 0 opts (omega arith)
