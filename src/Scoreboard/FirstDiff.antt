-- ===== src/Scoreboard/FirstDiff.antt =====
-- What the first difference of two frames says.
use mathlib.Core.Option
use native.Mathlib.Decide.{ℕ_discrete}
use emac_zero.Base.{
  ==-ne, ==-self, Option, [], ap, arith, get_elem?, inl, inr, length, none, refl, some, suc, take,
  ℕ, ◌+◌, ◌∷◌, ◌≡◌, ◌≢◌, ◌⊎◌,
}
use emac_zero.Base.Py.{Bytes}
use emac_zero.Scoreboard.{Diff, differ_at, first_diff, first_diff_from, lengths}

-- Byte `j` is the first that differs, or one frame begins with the whole of the other.
abbrev pub Agrees : ℕ → Bytes → Bytes → Option Diff → Type 0
Agrees i a b (some (differ_at k x y)) =
    (j : ℕ) × (k ≡ i + j)
    × (get_elem? a j ≡ some x)
    × (get_elem? b j ≡ some y)
    × (x ≢ y)
    × (take j a ≡ take j b)
Agrees i a b (some (lengths n m)) = ⊥
Agrees i a b none = (take (length b) a ≡ b) ⊎ (take (length a) b ≡ a)

Agrees-cons :
    (i x : ℕ) (xs ys : Bytes) (d : Option Diff)
    → Agrees (i + 1) xs ys d
    → Agrees i (x ∷ xs) (x ∷ ys) d
Agrees-cons i x xs ys (some (differ_at k u v)) (j, e, p, q, n, t) =
    (suc j, omega arith, p, q, n, ap (◌∷◌ x) t)
Agrees-cons i x xs ys (some (lengths n m)) h = h
Agrees-cons i x xs ys none (inl h) = inl (ap (◌∷◌ x) h)
Agrees-cons i x xs ys none (inr h) = inr (ap (◌∷◌ x) h)

first_diff_from-Agrees : (i : ℕ) (a b : Bytes) → Agrees i a b (first_diff_from i a b)
unfolding first_diff_from
first_diff_from-Agrees i [] ys = inr refl
first_diff_from-Agrees i (x ∷ xs) [] = inl refl
first_diff_from-Agrees i (x ∷ xs) (y ∷ ys) = elim (ℕ_discrete x y) [
  | yes e ↦ rw e (
      rw (==-self y) (
        Agrees-cons i y xs ys (first_diff_from (i + 1) xs ys)
          (first_diff_from-Agrees (i + 1) xs ys)))
  | no n ↦ rw (==-ne x y n) (0, omega arith, refl, refl, n, refl)
]

-- The description of two different frames: either the first byte at which they differ, with its
-- index and both values, or, where one frame begins with the other, both lengths.
abbrev pub Describes : Bytes → Bytes → Diff → Type 0
Describes a b (differ_at j x y) =
    (get_elem? a j ≡ some x) × (get_elem? b j ≡ some y) × (x ≢ y) × (take j a ≡ take j b)
Describes a b (lengths n m) = (n ≡ length a) × (m ≡ length b) × ((take m a ≡ b) ⊎ (take n b ≡ a))

-- `_first_diff` describes its two frames: what it names is the first byte that differs, and it falls
-- back to the lengths only where one frame begins with the other.
pub first_diff-Describes : (a b : Bytes) → Describes a b (first_diff a b)
unfolding first_diff
first_diff-Describes a b = go (first_diff_from 0 a b) (first_diff_from-Agrees 0 a b)
  where
    go :
        (d : Option Diff)
        → Agrees 0 a b d
        → Describes a b (Option.get_or d (lengths (length a) (length b)))
    go none h = (refl, refl, h)
    go (some (differ_at k x y)) (j, e, p, q, n, t) =
        let e' : k ≡ j = omega arith in rw e' (p, q, n, t)
    go (some (lengths n m)) h = absurd h
