-- ===== src/Bench/Crc/Residue.antt =====
-- What the CRC of a frame with its own FCS leaves in the register.
use emac_zero.Base.{
  [], ap, ap₂, arith, bit_xor, refl, suc, sym, zero, ℕ, ◌%◌, ◌++◌, ◌/◌, ◌<◌, ◌^◌, ◌∙◌, ◌∷◌, ◌≡◌,
}
use emac_zero.Base.Py.{Bytes, le_bytes4}
use emac_zero.Base.Xor.{
  bit_xor-halves, bit_xor-lows, bit_xor-lt, bit_xor-zero, bit_xor_clears, bit_xor_swap, halves,
  lows, zero-bit_xor,
}
use emac_zero.Bench.Crc.{crc32_byte, crc_raw, crc_rounds, crc_step, crc_round}
use emac_zero.Bench.Crc.Linear.{
  crc_rounds-bit_xor, crc_rounds-cleared, crc_rounds-lt, crc_step-eq-crc32_byte,
}

abbrev pub all_ones : ℕ
all_ones = 0xFFFFFFFF

lows-byte : (x : ℕ) → lows 8 x ≡ x % 2 ^ 8
unfolding lows
lows-byte x = omega arith

halves-byte : (x : ℕ) → halves 8 x ≡ x / 2 ^ 8
unfolding halves
halves-byte x = omega arith

-- A register's own low byte shifts it.
crc32_byte-low : (c : ℕ) → crc32_byte c (lows 8 c) ≡ halves 8 c
unfolding crc32_byte
crc32_byte-low c = ap (crc_rounds 8) (bit_xor_clears 8 c) ∙ crc_rounds-cleared 8 c

crc32_byte-bit_xor :
    (c k a b : ℕ)
    → crc32_byte (bit_xor c k) (bit_xor a b) ≡ bit_xor (crc32_byte c a) (crc32_byte k b)
unfolding crc32_byte
crc32_byte-bit_xor c k a b =
    ap (crc_rounds 8) (bit_xor_swap c k a b) ∙ crc_rounds-bit_xor 8 (bit_xor c a) (bit_xor k b)

crc32_byte-lt : (k b : ℕ) → k < 2 ^ 32 → b < 256 → crc32_byte k b < 2 ^ 32
unfolding crc32_byte
crc32_byte-lt k b h g = crc_rounds-lt 8 (bit_xor k b) (bit_xor-lt 32 k b h (omega arith))

-- A byte of the complement: what is left of the register `c`, and the constant `k` one byte on.
complement_step :
    (c k : ℕ)
    → c < 2 ^ 32
    → k < 2 ^ 32
    → crc_step (bit_xor c k) (bit_xor (lows 8 c) 255) ≡ bit_xor (c / 2 ^ 8) (crc32_byte k 255)
complement_step c k h g =
    let byte : bit_xor (lows 8 c) 255 < 2 ^ 8 =
      bit_xor-lt 8 (lows 8 c) 255 (omega (arith, lows-byte c)) (omega arith) in
    crc_step-eq-crc32_byte (bit_xor c k) (bit_xor (lows 8 c) 255) (bit_xor-lt 32 c k h g)
      (omega arith)
    ∙ crc32_byte-bit_xor c k (lows 8 c) 255
    ∙ ap (λ (t : ℕ). bit_xor t (crc32_byte k 255)) (crc32_byte-low c ∙ halves-byte c)

-- The bytes of a complement.
complement_byte : (x y : ℕ) → lows 8 y ≡ 255 → bit_xor x y % 2 ^ 8 ≡ bit_xor (lows 8 x) 255
complement_byte x y h =
    sym (lows-byte (bit_xor x y)) ∙ bit_xor-lows 8 x y ∙ ap (bit_xor (lows 8 x)) h

bit_xor-shift : (x y : ℕ) → bit_xor x y / 2 ^ 8 ≡ bit_xor (x / 2 ^ 8) (y / 2 ^ 8)
bit_xor-shift x y =
    sym (halves-byte (bit_xor x y))
    ∙ bit_xor-halves 8 x y
    ∙ ap₂ bit_xor (halves-byte x) (halves-byte y)

bytes_of_complement :
    (c : ℕ)
    → le_bytes4 (bit_xor c all_ones)
      ≡ bit_xor (lows 8 c) 255
        ∷ bit_xor (lows 8 (c / 2 ^ 8)) 255
        ∷ bit_xor (lows 8 (c / 2 ^ 8 / 2 ^ 8)) 255
        ∷ bit_xor (lows 8 (c / 2 ^ 8 / 2 ^ 8 / 2 ^ 8)) 255
        ∷ []
unfolding lows
bytes_of_complement c =
    let n = bit_xor c all_ones in
    let n1 = bit_xor-shift c all_ones in
    let n2 : n / 2 ^ 16 ≡ bit_xor (c / 2 ^ 8 / 2 ^ 8) 0xFFFF =
      let s : n / 2 ^ 16 ≡ n / 2 ^ 8 / 2 ^ 8 = omega arith in
      s ∙ ap (λ (t : ℕ). t / 2 ^ 8) n1 ∙ bit_xor-shift (c / 2 ^ 8) 0xFFFFFF in
    let n3 : n / 2 ^ 24 ≡ bit_xor (c / 2 ^ 8 / 2 ^ 8 / 2 ^ 8) 0xFF =
      let s : n / 2 ^ 24 ≡ n / 2 ^ 16 / 2 ^ 8 = omega arith in
      s ∙ ap (λ (t : ℕ). t / 2 ^ 8) n2 ∙ bit_xor-shift (c / 2 ^ 8 / 2 ^ 8) 0xFFFF in
    ap₂ ◌∷◌ (complement_byte c all_ones refl) (
      ap₂ ◌∷◌ (ap (λ (t : ℕ). t % 2 ^ 8) n1 ∙ complement_byte (c / 2 ^ 8) 0xFFFFFF refl) (
        ap₂ ◌∷◌ (ap (λ (t : ℕ). t % 2 ^ 8) n2 ∙ complement_byte (c / 2 ^ 8 / 2 ^ 8) 0xFFFF refl) (
          ap (λ (t : ℕ). t ∷ [])
            (ap (λ (t : ℕ). t % 2 ^ 8) n3
              ∙ complement_byte (c / 2 ^ 8 / 2 ^ 8 / 2 ^ 8) 0xFF refl))))

crc_raw-append : (xs ys : Bytes) (c : ℕ) → crc_raw (xs ++ ys) c ≡ crc_raw ys (crc_raw xs c)
unfolding crc_raw
crc_raw-append [] ys c = refl
crc_raw-append (x ∷ xs) ys c = crc_raw-append xs ys (crc_step c x)

pub crc_raw-lt : (xs : Bytes) (c : ℕ) → c < 2 ^ 32 → crc_raw xs c < 2 ^ 32
unfolding crc_raw crc_step
crc_raw-lt [] c h = h
crc_raw-lt (x ∷ xs) c h = crc_raw-lt xs (crc_step c x) (omega arith)

-- The constant after `n` bytes of ones.
ones_after : ℕ → ℕ
ones_after zero = 0
ones_after (suc n) = crc32_byte (ones_after n) 255

ones_after-lt : (n : ℕ) → ones_after n < 2 ^ 32
unfolding ones_after
ones_after-lt zero = omega arith
ones_after-lt (suc n) = crc32_byte-lt (ones_after n) 255 (ones_after-lt n) (omega arith)

ones_after_four : ones_after 4 ≡ 0xDEBB20E3
unfolding ones_after crc32_byte crc_rounds crc_round
ones_after_four = refl

complement_step_at :
    (n c : ℕ)
    → c < 2 ^ 32
    → crc_step (bit_xor c (ones_after n)) (bit_xor (lows 8 c) 255)
      ≡ bit_xor (c / 2 ^ 8) (ones_after (suc n))
unfolding ones_after
complement_step_at n c h = complement_step c (ones_after n) h (ones_after-lt n)

complement_raw : (c : ℕ) → c < 2 ^ 32 → crc_raw (le_bytes4 (bit_xor c all_ones)) c ≡ 0xDEBB20E3
unfolding crc_raw ones_after
complement_raw c h =
    let c1 = c / 2 ^ 8 in
    let c2 = c1 / 2 ^ 8 in
    let c3 = c2 / 2 ^ 8 in
    let b1 = bit_xor (lows 8 c1) 255 in
    let b2 = bit_xor (lows 8 c2) 255 in
    let b3 = bit_xor (lows 8 c3) 255 in
    let s0 : crc_step c (bit_xor (lows 8 c) 255) ≡ bit_xor c1 (ones_after 1) =
      ap (λ (t : ℕ). crc_step t (bit_xor (lows 8 c) 255)) (sym (bit_xor-zero c))
      ∙ complement_step_at 0 c h in
    let gone : c3 / 2 ^ 8 ≡ 0 = omega arith in
    ap (λ bs. crc_raw bs c) (bytes_of_complement c)
    ∙ ap (λ (t : ℕ). crc_step (crc_step (crc_step t b1) b2) b3) s0
    ∙ ap (λ (t : ℕ). crc_step (crc_step t b2) b3) (complement_step_at 1 c1 (omega arith))
    ∙ ap (λ (t : ℕ). crc_step t b3) (complement_step_at 2 c2 (omega arith))
    ∙ complement_step_at 3 c3 (omega arith)
    ∙ ap (λ (t : ℕ). bit_xor t (ones_after 4)) gone
    ∙ zero-bit_xor (ones_after 4)
    ∙ ones_after_four

-- The register after a frame and the four bytes of its FCS, which is the complement of the register
-- after the frame with the low byte first, is 0xDEBB20E3 whatever the frame is.
pub crc_raw-residue :
    (frame : Bytes)
    → crc_raw (frame ++ le_bytes4 (bit_xor (crc_raw frame all_ones) all_ones)) all_ones ≡ 0xDEBB20E3
crc_raw-residue frame =
    crc_raw-append frame _ all_ones
    ∙ complement_raw (crc_raw frame all_ones) (crc_raw-lt frame all_ones (omega arith))
