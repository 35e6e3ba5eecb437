-- ===== src/Eth/Fcs.antt =====
-- Laws of the padding and of the FCS bytes.
use emac_zero.Base.{
  [], arith, length, length-append, length-replicate, max, replicate, true, ℕ, ◌-◌, ◌<◌, ◌^◌, ◌∷◌,
  ◌≡◌,
}
use emac_zero.Base.Predicates.{IsBytes}
use emac_zero.Base.Py.{Bytes}
use emac_zero.Eth.{fcs, fcs_bytes, fcs_ok, min_frame, pad_byte, pad_payload}

pub length-pad_payload : (payload : Bytes) → length (pad_payload payload) ≡ max 60 (length payload)
unfolding pad_payload
length-pad_payload payload = ground (
  arith,
  length-append payload (replicate (min_frame - length payload) pad_byte),
  length-replicate (min_frame - length payload) pad_byte,
)

module _ (crc32 : Bytes → ℕ) where
  pub fcs-lt : (payload : Bytes) → fcs crc32 payload < 2 ^ 32
  unfolding fcs
  fcs-lt payload = omega arith

  pub fcs_bytes-IsBytes : (payload : Bytes) → IsBytes (fcs_bytes crc32 payload)
  unfolding fcs_bytes
  fcs_bytes-IsBytes payload = omega (arith, fcs-lt payload)

  pub fcs_ok-fcs_bytes : (payload : Bytes) → fcs_ok crc32 payload (fcs_bytes crc32 payload) ≡ true
  unfolding fcs_ok fcs_bytes
  fcs_ok-fcs_bytes payload = ground (arith, fcs-lt payload)

  -- Four bytes that `fcs_ok` accepts for a payload are the four that `fcs_bytes` gives.
  pub fcs_ok-four :
      (payload : Bytes) (a b c d a' b' c' d' : ℕ)
      → fcs_bytes crc32 payload ≡ a ∷ b ∷ c ∷ d ∷ []
      → IsBytes (a' ∷ b' ∷ c' ∷ d' ∷ [])
      → fcs_ok crc32 payload (a' ∷ b' ∷ c' ∷ d' ∷ []) ≡ true
      → (a' ≡ a) × (b' ≡ b) × (c' ≡ c) × (d' ≡ d)
  unfolding fcs_ok fcs_bytes
  fcs_ok-four payload a b c d a' b' c' d' e h k = ground (arith, fcs-lt payload)
