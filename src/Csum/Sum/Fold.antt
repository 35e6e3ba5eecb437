-- ===== src/Csum/Sum/Fold.antt =====
-- The folded sum in closed form: the total of the 16-bit words, reduced modulo 0xFFFF into
-- 1 .. 0xFFFF, and 0 only for a total of 0.
use native.Mathlib.Decide.{ℕ_discrete}
use emac_zero.Base.{
  ==-ne, ==_iff, [], arith, bit_or, if◌then◌else◌, length, length-append, suc, zero, ℕ, ◌%◌, ◌*◌,
  ◌++◌, ◌+◌, ◌-◌, ◌/◌, ◌<◌, ◌==◌, ◌^◌, ◌↔◌, ◌∷◌, ◌≡◌, ◌≤◌,
}
use emac_zero.Base.Bits.{bit_or_disjoint, shl}
use emac_zero.Base.Predicates.{All-append, IsBytes}
use emac_zero.Base.Py.{Bytes}
use emac_zero.Csum.Sum.{csum, fold_carries, ones_sum, pad_even, pair_sum}

-- The 16-bit words, an odd last byte being the high half of one.
unfoldable pub total : Bytes → ℕ
total [] = 0
total (a ∷ []) = a * 256
total (a ∷ b ∷ rest) = a * 256 + b + total rest

abbrev pub reduced : ℕ → ℕ
reduced s = if s == 0 then 0 else (s - 1) % 65535 + 1

fold_carries-eq-reduced : (fuel s : ℕ) → s ≤ fuel → fold_carries fuel s ≡ reduced s
unfolding fold_carries
fold_carries-eq-reduced zero s h = ground arith
fold_carries-eq-reduced (suc fuel) s h =
    ground (arith, fold_carries-eq-reduced fuel (s % 2 ^ 16 + s / 2 ^ 16))

pair_sum-eq : (s : ℕ) (xs : Bytes) → IsBytes xs → length xs % 2 ≡ 0 → pair_sum s xs ≡ s + total xs
unfolding pair_sum total
pair_sum-eq s [] h e = omega arith
pair_sum-eq s (a ∷ []) h e = absurd (omega arith)
pair_sum-eq s (a ∷ b ∷ rest) h e = omega (
  arith,
  pair_sum-eq (s + bit_or (shl a 8) b) rest h.1.1 (omega arith),
  bit_or_disjoint 8 a b (omega arith),
)

total-pad : (xs : Bytes) → length xs % 2 ≡ 1 → total (xs ++ 0 ∷ []) ≡ total xs
unfolding total
total-pad [] e = absurd (omega arith)
total-pad (a ∷ []) e = omega arith
total-pad (a ∷ b ∷ rest) e = omega (arith, total-pad rest (omega arith))

pad_even-total : (xs : Bytes) → IsBytes xs → pair_sum 0 (pad_even xs) ≡ total xs
unfolding pad_even
pad_even-total xs h = elim (ℕ_discrete (length xs % 2) 0) [
  | yes e ↦ rw ((==_iff _ _).1 e) (omega (arith, pair_sum-eq 0 xs h e))
  | no n ↦ rw (==-ne (length xs % 2) 0 n) (
      omega (
        arith,
        pair_sum-eq 0 (xs ++ 0 ∷ []) (All-append _ xs (0 ∷ []) h (omega arith, tt))
            (omega (arith, length-append xs (0 ∷ []))),
        total-pad xs (omega arith),
      ))
]

pub ones_sum-eq-reduced : (xs : Bytes) → IsBytes xs → ones_sum xs ≡ reduced (total xs)
unfolding ones_sum
ones_sum-eq-reduced xs h =
    rw (pad_even-total xs h) (fold_carries-eq-reduced (total xs) (total xs) (omega arith))

-- The sum of bytes is folded all the way: it fits 16 bits, it is the sum of the 16-bit words modulo
-- 0xFFFF, and it is 0 only where that sum is 0.
pub ones_sum_lem :
    (xs : Bytes)
    → IsBytes xs
    → (ones_sum xs < 2 ^ 16)
      × (ones_sum xs % 65535 ≡ total xs % 65535)
      × ((ones_sum xs ≡ 0) ↔ (total xs ≡ 0))
ones_sum_lem xs h = ground (arith, ones_sum-eq-reduced xs h)

pub csum-lt : (xs : Bytes) → csum xs < 2 ^ 16
unfolding csum
csum-lt xs = omega arith
