-- ===== src/Csum/Packet/Sums.antt =====
-- Where the L4 checksum of an IPv4 packet is computed without an exception.
use emac_zero.Base.{
  Bool-cases, arith, false, inl, inr, length, length-take, refl, some, take, ℕ, ◌&&◌, ◌++◌, ◌<◌,
  ◌==◌, ◌^◌, ◌∷◌, ◌≡◌,
}
use emac_zero.Base.Py.{Bytes, as_byte_lem, ok, to_bytes2_lem}
use emac_zero.Csum.Packet.{Packet, addresses, icmp, l4_csum}
use emac_zero.Csum.Sum.{csum}
use emac_zero.Csum.Sum.Fold.{csum-lt}
use emac_zero.Csum.Sum.Insert.{field16}

pub addresses_ok : (p : Packet) {a : Bytes} → p.addr_bytes ≡ some a → addresses p ≡ ok a
unfolding addresses
addresses_ok p h = rw h refl

-- The checksum of an IPv4 packet's L4 part is computed without an exception.
pub l4_csum_ok :
    (p : Packet) (a xs : Bytes) (cover : ℕ)
    → p.family ≡ 4
    → p.addr_bytes ≡ some a
    → p.proto < 256
    → length xs < 2 ^ 16
    → (c : ℕ) × (l4_csum p xs cover ≡ ok c) × (c < 2 ^ 16)
l4_csum_ok p a xs cover f e pr h = elim (Bool-cases ((p.proto == icmp) && (p.family == 4))) [
  | inl i ↦ (csum (take cover xs), unfold l4_csum in rw i refl, csum-lt (take cover xs))
  | inr i ↦
      let len2 : Bytes = field16 (length (take cover xs)) in
      let l : length (take cover xs) < 2 ^ 16 = omega (arith, length-take cover xs) in
      let n6 : (p.family == 6) ≡ false = ground arith in
      (
        csum ((a ++ (0 ∷ p.proto ∷ len2)) ++ take cover xs),
        unfold l4_csum in
            rw
              (
                i,
                addresses_ok p e,
                as_byte_lem p.proto pr,
                to_bytes2_lem (length (take cover xs)) l,
                n6,
              )
              refl,
        csum-lt ((a ++ (0 ∷ p.proto ∷ len2)) ++ take cover xs),
      )
]
