-- ===== src/Csum/Sum/Insert.antt =====
-- A checksum put into its zeroed field makes the sum over everything 0xFFFF, and hardly any other
-- value of the field does.
use emac_zero.Base.{[], arith, length, ℕ, ◌%◌, ◌++◌, ◌+◌, ◌-◌, ◌/◌, ◌<◌, ◌^◌, ◌↔◌, ◌∷◌, ◌≡◌}
use emac_zero.Base.Predicates.{All-append, IsBytes}
use emac_zero.Base.Py.{Bytes}
use emac_zero.Csum.Sum.{csum, ones_sum}
use emac_zero.Csum.Sum.Fold.{csum-lt, ones_sum-eq-reduced, reduced, total}

pub total-append : (xs ys : Bytes) → length xs % 2 ≡ 0 → total (xs ++ ys) ≡ total xs + total ys
unfolding total
total-append [] ys e = omega arith
total-append (a ∷ []) ys e = absurd (omega arith)
total-append (a ∷ b ∷ xs) ys e = omega (arith, total-append xs ys (omega arith))

-- The two bytes of a 16-bit field, high byte first.
abbrev pub field16 : ℕ → Bytes
field16 v = v / 2 ^ 8 ∷ v % 2 ^ 8 ∷ []

total_field :
    (xs ys : Bytes) (v : ℕ)
    → length xs % 2 ≡ 0
    → total (xs ++ (field16 v ++ ys)) ≡ v + total (xs ++ (field16 0 ++ ys))
unfolding total
total_field xs ys v e =
    omega (arith, total-append xs (field16 v ++ ys) e, total-append xs (field16 0 ++ ys) e)

field_bytes :
    (xs ys : Bytes) (v : ℕ)
    → IsBytes xs
    → IsBytes ys
    → v < 2 ^ 16
    → IsBytes (xs ++ (field16 v ++ ys))
field_bytes xs ys v hx hy hv = All-append _ xs (field16 v ++ ys) hx (omega arith, (omega arith, hy))

module _ (xs ys : Bytes) (hx : IsBytes xs) (hy : IsBytes ys) (even : length xs % 2 ≡ 0) where
  zeroed : csum (xs ++ (field16 0 ++ ys)) ≡ 65535 - reduced (total (xs ++ (field16 0 ++ ys)))
  unfolding csum
  zeroed = ground (
    arith,
    ones_sum-eq-reduced (xs ++ (field16 0 ++ ys)) (field_bytes xs ys 0 hx hy (omega arith)),
  )

  -- For bytes around a field at an even offset, the sum is 0xFFFF once the field holds the checksum
  -- that was computed with the field zero.
  pub ones_sum-csum : ones_sum (xs ++ (field16 (csum (xs ++ (field16 0 ++ ys))) ++ ys)) ≡ 0xFFFF
  ones_sum-csum =
      let c = csum (xs ++ (field16 0 ++ ys)) in
      ground (
        arith,
        zeroed,
        csum-lt (xs ++ (field16 0 ++ ys)),
        total_field xs ys c even,
        ones_sum-eq-reduced (xs ++ (field16 c ++ ys))
            (field_bytes xs ys c hx hy (csum-lt (xs ++ (field16 0 ++ ys)))),
      )

  -- For bytes around a field at an even offset that are not all zero, a 16-bit value of the field
  -- makes the sum 0xFFFF exactly if it is the checksum, computed with the field zero, up to the two
  -- spellings of zero, 0 and 0xFFFF.
  pub ones_sum-field_iff :
      (v : ℕ)
      → v < 2 ^ 16
      → 0 < total (xs ++ (field16 0 ++ ys))
      → (ones_sum (xs ++ (field16 v ++ ys)) ≡ 0xFFFF)
        ↔ (v % 65535 ≡ csum (xs ++ (field16 0 ++ ys)) % 65535)
  ones_sum-field_iff v hv pos = ground (
    arith,
    zeroed,
    total_field xs ys v even,
    ones_sum-eq-reduced (xs ++ (field16 v ++ ys)) (field_bytes xs ys v hx hy hv),
  )
