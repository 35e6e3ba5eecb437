-- ===== src/Csum/Sum.antt =====
-- `ones_sum` and `csum` of sim/cocotb/lib/csum.py.
pub mod Fold
pub mod Insert
use emac_zero.Base.{
  [], bit_or, if◌then◌else◌, length, suc, zero, ℕ, ◌%◌, ◌++◌, ◌+◌, ◌-◌, ◌==◌, ◌^◌, ◌∷◌,
}
use emac_zero.Base.Bits.{low_bits, shl, shr}
use emac_zero.Base.Py.{Bytes}

pad_even : Bytes → Bytes
pad_even xs = if length xs % 2 == 0 then xs else xs ++ 0 ∷ []

-- The loop over the pairs of bytes. The padded length is even, so no byte is left alone.
pair_sum : ℕ → Bytes → ℕ
pair_sum s [] = s
pair_sum s (a ∷ []) = s
pair_sum s (a ∷ b ∷ rest) = pair_sum (s + bit_or (shl a 8) b) rest

-- while s >> 16: s = (s & 0xFFFF) + (s >> 16)
unfoldable pub fold_carries : ℕ → ℕ → ℕ
fold_carries zero s = s
fold_carries (suc fuel) s =
    let rest = fold_carries fuel (low_bits s 16 + shr s 16) in if shr s 16 == 0 then s else rest

-- Each round lowers the sum, so the sum itself is fuel enough.
unfoldable pub ones_sum : Bytes → ℕ
unfolding pad_even pair_sum fold_carries
ones_sum xs = let s = pair_sum 0 (pad_even xs) in fold_carries s s

-- ~x & 0xFFFF for x below 2 ** 16
abbrev pub invert16 : ℕ → ℕ
invert16 x = 2 ^ 16 - 1 - low_bits x 16

unfoldable pub csum : Bytes → ℕ
unfolding ones_sum
csum xs = invert16 (ones_sum xs)
