-- ===== src/Csum/Frame/Header.antt =====
-- The IPv4 header that `frame` builds, byte by byte.
use mathlib.Core.List.{append-nil}
use emac_zero.Base.{
  Bool-cases, [], ap, arith, bit_or, drop, drop-all, if◌then◌else◌, inl, inr, length, length-append,
  length-replicate, max, refl, replicate, some, suc, take-append, ℕ, ◌%◌, ◌*◌, ◌++◌, ◌+◌, ◌-◌, ◌<◌,
  ◌^◌, ◌∙◌, ◌∷◌, ◌≡◌, ◌≤◌,
}
use emac_zero.Base.Bits.{bit_or_disjoint, low_bits}
use emac_zero.Base.Py.{Bytes, ok, store_lem, store_slice, to_bytes2, to_bytes2_lem}
use emac_zero.Csum.Draw.{Random}
use emac_zero.Csum.Frame.{ip4_header, ip4_numbers, seal_ip4, sent_ip_csum}
use emac_zero.Csum.Frame.Corrupt.{sent_ip_csum-lt}
use emac_zero.Csum.Packet.{Packet, options}
use emac_zero.Csum.Packet.Sums.{addresses_ok}
use emac_zero.Csum.Sum.{csum}
use emac_zero.Csum.Sum.Fold.{csum-lt, total}
use emac_zero.Csum.Sum.Insert.{field16}

-- What the IPv4 branch of `frame` needs in order not to raise.
pub record CanSend (rng : Random) (p : Packet) (a o : Bytes) : Type 0 where
  pub ihl_min : 5 ≤ p.ihl
  pub ihl_max : p.ihl < 16
  pub proto : p.proto < 256
  pub addr : p.addr_bytes ≡ some a
  pub length_addr : length a ≡ 8
  pub opts : options rng p ≡ ok o
  pub length_opts : length o + 20 ≡ p.ihl * 4

pub frag_word : Packet → ℕ
frag_word p = (if p.mf then 0x2000 else 0) + p.frag_off % 2 ^ 13

frag_or : (p : Packet) → bit_or (if p.mf then 0x2000 else 0) (low_bits p.frag_off 13) ≡ frag_word p
unfolding frag_word
frag_or p = elim (Bool-cases p.mf) [
  | inl e ↦ rw e (bit_or_disjoint 13 1 (p.frag_off % 2 ^ 13) (omega arith))
  | inr e ↦ rw e (bit_or_disjoint 13 0 (p.frag_off % 2 ^ 13) (omega arith))
]

pub frag_word-lt : (p : Packet) → frag_word p < 2 ^ 16
unfolding frag_word
frag_word-lt p = ground arith

-- The header up to the checksum field, and from behind it.
unfoldable pub header_front : Packet → ℕ → ℕ → Bytes
unfolding frag_word
header_front p total ident =
    (64 + p.ihl)
    ∷ 0
    ∷ (field16 total ++ (field16 ident ++ (field16 (frag_word p) ++ 64 ∷ p.proto ∷ [])))

-- 20 and `m` more, in the form that the list functions match on.
abbrev ten : ℕ → ℕ
ten m = suc (suc (suc (suc (suc (suc (suc (suc (suc (suc m)))))))))

module _ (rng : Random) where
  open rng use {State, randrange, randrange-lt}

  numbers_bytes :
      (p : Packet) (n m : ℕ) (s : State)
      → p.ihl < 16
      → p.proto < 256
      → p.ihl * 4 ≡ ten (ten m)
      → p.ihl * 4 + n < 2 ^ 16
      → ip4_numbers rng p n s
        ≡ ok (header_front p (p.ihl * 4 + n) (randrange 65536 s).0 ++ replicate (ten m) 0)
  unfolding ip4_numbers header_front frag_word
  numbers_bytes p n m s i pr e h =
      let b : bit_or 0x40 p.ihl ≡ 64 + p.ihl = bit_or_disjoint 4 4 p.ihl (omega arith) in
      let total : ℕ = ten (ten m) + n in
      let ident : ℕ = (randrange 65536 s).0 in
      rw
        (
          e,
          b,
          store_lem (replicate (ten (ten m)) 0) 0 (64 + p.ihl) (omega arith) (omega arith),
          to_bytes2_lem total (omega arith),
          to_bytes2_lem ident (randrange-lt 65536 s (omega arith)),
          frag_or p,
          to_bytes2_lem (frag_word p) (frag_word-lt p),
        )
        (rw
          (store_lem
            ((64 + p.ihl)
              ∷ 0
              ∷ (field16 total
                  ++ (field16 ident ++ (field16 (frag_word p) ++ replicate (suc (suc (ten m))) 0))))
            8 64 (omega arith) (omega arith))
          (store_lem
            ((64 + p.ihl)
              ∷ 0
              ∷ (field16 total
                  ++ (field16 ident ++ (field16 (frag_word p) ++ 64 ∷ replicate (suc (ten m)) 0))))
            9 p.proto (omega arith) pr))

  drop_past : (m : ℕ) (a r : Bytes) → length a ≡ 8 → length r ≡ m → drop (8 + m) (a ++ r) ≡ []
  drop_past m a r h k = drop-all (8 + m) (a ++ r) (omega (arith, length-append a r))

  -- The addresses and the options fill the header to its end.
  filled_bytes :
      (p : Packet) (t i m : ℕ) (a o : Bytes)
      → length a ≡ 8
      → store_slice
          (store_slice (header_front p t i ++ replicate (ten m) 0) 12 20 a)
          20
          (ten (ten m))
          o
        ≡ header_front p t i ++ (field16 0 ++ (a ++ o))
  unfolding header_front
  filled_bytes p t i m a o h =
      let e : max 20 (ten (ten m)) ≡ ten (ten m) = omega arith in
      let d : drop (ten (ten m)) (header_front p t i ++ (field16 0 ++ (a ++ replicate m 0))) ≡ [] =
        drop-all (ten (ten m)) (header_front p t i ++ (field16 0 ++ (a ++ replicate m 0)))
          (omega (arith, length-append a (replicate m 0), length-replicate {A = ℕ} m 0)) in
      rw (e, d, take-append 8 a (replicate m 0) h, append-nil o) refl

  seal_bytes :
      (p : Packet) (t i : ℕ) (rest : Bytes)
      → let c0 = csum (header_front p t i ++ (field16 0 ++ rest)) in
        seal_ip4 p (header_front p t i ++ (field16 0 ++ rest))
        ≡ ok (header_front p t i ++ (field16 (sent_ip_csum p c0) ++ rest))
  seal_bytes p t i rest =
      let c0 : ℕ = csum (header_front p t i ++ (field16 0 ++ rest)) in
      let w : to_bytes2 (sent_ip_csum p c0) ≡ ok (field16 (sent_ip_csum p c0)) =
        to_bytes2_lem (sent_ip_csum p c0)
          (sent_ip_csum-lt p c0 (csum-lt (header_front p t i ++ (field16 0 ++ rest)))) in
      unfold seal_ip4 in rw w (unfold header_front in refl)

  -- For an IPv4 packet whose addresses, options and numbers fill and fit their fields, the header
  -- is made without an exception, and it is: the fixed fields, the checksum over the header with
  -- that field zero (corrupted on request), the addresses and the options.
  pub ip4_header-bytes :
      (p : Packet) (l4' a o : Bytes) (s : State)
      → CanSend rng p a o
      → p.ihl * 4 + length l4' < 2 ^ 16
      → let front = header_front p (p.ihl * 4 + length l4') (randrange 65536 s).0 in
        ip4_header rng p l4' s
        ≡ ok (
            front
            ++ (field16 (sent_ip_csum p (csum (front ++ (field16 0 ++ (a ++ o))))) ++ (a ++ o)))
  ip4_header-bytes p l4' a o s c h =
      let m : ℕ = p.ihl * 4 - 20 in
      let e : p.ihl * 4 ≡ ten (ten m) = omega (arith, c.ihl_min) in
      let t : ℕ = p.ihl * 4 + length l4' in
      let i : ℕ = (randrange 65536 s).0 in
      unfold ip4_header in
      rw (numbers_bytes p (length l4') m s c.ihl_max c.proto e h, addresses_ok p c.addr, c.opts)
        (ap (seal_ip4 p) (
            ap
              (λ (n : ℕ).
                store_slice (store_slice (header_front p t i ++ replicate (ten m) 0) 12 20 a) 20 n
                  o)
              e
            ∙ filled_bytes p t i m a o c.length_addr)
          ∙ seal_bytes p t i (a ++ o))
