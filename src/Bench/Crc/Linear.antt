-- ===== src/Bench/Crc/Linear.antt =====
-- The steps of the CRC add up, stay within 32 bits, and agree between the two modules.
use emac_zero.Base.{
  Bool-cases, ap, ap₂, arith, bit_xor, inl, inr, refl, suc, sym, zero, ℕ, ◌%◌, ◌*◌, ◌/◌, ◌<◌, ◌==◌,
  ◌^◌, ◌∙◌, ◌≡◌, ◌⊎◌,
}
use emac_zero.Base.Xor.{
  bit_xor-half, bit_xor-lt, bit_xor-mod, bit_xor-zero, bit_xor_assoc, bit_xor_comm, bit_xor_self,
  bit_xor_swap, cleared, halves,
}
use emac_zero.Bench.Crc.{crc32_byte, crc_round, crc_rounds, crc_step, poly}

parity : (c : ℕ) → (c % 2 ≡ 0) ⊎ (c % 2 ≡ 1)
parity c = elim (Bool-cases (c % 2 == 0)) [
  | inl y ↦ inl (ground arith)
  | inr n ↦ inr (ground arith)
]

even_round : (c : ℕ) → c % 2 ≡ 0 → crc_round c ≡ c / 2
unfolding crc_round
even_round c h = rw h refl

odd_round : (c : ℕ) → c % 2 ≡ 1 → crc_round c ≡ bit_xor (c / 2) poly
unfolding crc_round
odd_round c h = rw h refl

xor_cancel : (x y k : ℕ) → bit_xor (bit_xor x k) (bit_xor y k) ≡ bit_xor x y
xor_cancel x y k =
    bit_xor_swap x k y k ∙ ap (bit_xor (bit_xor x y)) (bit_xor_self k) ∙ bit_xor-zero (bit_xor x y)

crc_round-bit_xor : (x y : ℕ) → crc_round (bit_xor x y) ≡ bit_xor (crc_round x) (crc_round y)
crc_round-bit_xor x y = elim (parity x) [
  | inl a ↦ elim (parity y) [
    | inl b ↦
        even_round (bit_xor x y) (omega (arith, bit_xor-mod x y))
        ∙ bit_xor-half x y
        ∙ sym (ap₂ bit_xor (even_round x a) (even_round y b))
    | inr b ↦
        odd_round (bit_xor x y) (omega (arith, bit_xor-mod x y))
        ∙ ap (λ (t : ℕ). bit_xor t poly) (bit_xor-half x y)
        ∙ bit_xor_assoc (x / 2) (y / 2) poly
        ∙ sym (ap₂ bit_xor (even_round x a) (odd_round y b))
  ]
  | inr a ↦ elim (parity y) [
    | inl b ↦
        odd_round (bit_xor x y) (omega (arith, bit_xor-mod x y))
        ∙ ap (λ (t : ℕ). bit_xor t poly) (bit_xor-half x y)
        ∙ bit_xor_assoc (x / 2) (y / 2) poly
        ∙ ap (bit_xor (x / 2)) (bit_xor_comm (y / 2) poly)
        ∙ sym (bit_xor_assoc (x / 2) poly (y / 2))
        ∙ sym (ap₂ bit_xor (odd_round x a) (even_round y b))
    | inr b ↦
        even_round (bit_xor x y) (omega (arith, bit_xor-mod x y))
        ∙ bit_xor-half x y
        ∙ sym (xor_cancel (x / 2) (y / 2) poly)
        ∙ sym (ap₂ bit_xor (odd_round x a) (odd_round y b))
  ]
]

pub crc_rounds-bit_xor :
    (n x y : ℕ) → crc_rounds n (bit_xor x y) ≡ bit_xor (crc_rounds n x) (crc_rounds n y)
unfolding crc_rounds
crc_rounds-bit_xor zero x y = refl
crc_rounds-bit_xor (suc n) x y =
    ap (crc_rounds n) (crc_round-bit_xor x y) ∙ crc_rounds-bit_xor n (crc_round x) (crc_round y)

-- Rounds over digits that are 0 shift.
pub crc_rounds-cleared : (n x : ℕ) → crc_rounds n (cleared n x) ≡ halves n x
unfolding crc_rounds cleared halves
crc_rounds-cleared zero x = refl
crc_rounds-cleared (suc n) x =
    let half : cleared n (x / 2) * 2 / 2 ≡ cleared n (x / 2) = omega arith in
    ap (crc_rounds n) (even_round (cleared n (x / 2) * 2) (omega arith) ∙ half)
    ∙ crc_rounds-cleared n (x / 2)

crc_round-lt : (c : ℕ) → c < 2 ^ 32 → crc_round c < 2 ^ 32
crc_round-lt c h = elim (parity c) [
  | inl a ↦ omega (arith, even_round c a)
  | inr a ↦ omega (arith, odd_round c a, bit_xor-lt 32 (c / 2) poly (omega arith) (omega arith))
]

pub crc_rounds-lt : (n c : ℕ) → c < 2 ^ 32 → crc_rounds n c < 2 ^ 32
unfolding crc_rounds
crc_rounds-lt zero c h = h
crc_rounds-lt (suc n) c h = crc_rounds-lt n (crc_round c) (crc_round-lt c h)

-- For a register of 32 bits and a byte, the steps of the two modules agree: the masks of `crc_step`
-- drop nothing.
pub crc_step-eq-crc32_byte : (c b : ℕ) → c < 2 ^ 32 → b < 256 → crc_step c b ≡ crc32_byte c b
unfolding crc_step crc32_byte
crc_step-eq-crc32_byte c b h k =
    let same : b % 2 ^ 8 ≡ b = omega arith in
    let less : bit_xor c b < 2 ^ 32 = bit_xor-lt 32 c b h (omega arith) in
    let fits = crc_rounds-lt 8 (bit_xor c b) less in
    let whole : crc_rounds 8 (bit_xor c b) % 2 ^ 32 ≡ crc_rounds 8 (bit_xor c b) = omega arith in
    ap (λ (t : ℕ). crc_rounds 8 (bit_xor c t) % 2 ^ 32) same ∙ whole
