-- ===== src/Csum/Packet/Built.antt =====
-- What `build` leaves in the packet.
use mathlib.Core.Option
use emac_zero.Base.{
  Bool-cases, Option, [], ap, arith, bit_or, get_or, inl, inr, leb, leb→le, length, length-set, ltb,
  ltb→lt, none, refl, set, some, suc, sym, true, zero, ℕ, ◌%◌, ◌&&◌, ◌+◌, ◌<◌, ◌==◌, ◌^◌, ◌∙◌, ◌∷◌,
  ◌≡◌, ◌≤◌,
}
use emac_zero.Base.Bits.{bit_or_disjoint, low_bits, shl}
use emac_zero.Base.Predicates.{IsBytes}
use emac_zero.Base.Py.{Bytes, bind_ok, from_bytes, ok, ok-injective, slice, store_slice, to_bytes2}
use emac_zero.Base.Slices.{
  length-store_slice, slice-store_slice, slice_before, store_slice-IsBytes, store_slice_twice,
}
use emac_zero.Csum.Draw.{Random, rand_bytes}
use emac_zero.Csum.Draw.Length.{length-rand_bytes, rand_bytes-IsBytes}
use emac_zero.Csum.Packet.{
  Packet, addrs, build, l4_bytes, l4_csum_off, tcp, tcp_offset, udp, udp_cov, udp_length, zero_at,
  zero_field,
}
use emac_zero.Csum.Sum.Insert.{field16}

-- `_l4` is a whole L4 part with its checksum field zeroed and, for UDP, its Length field set.
pub record IsBuilt (p : Packet) : Type 0 where
  pub length_l4 : length p.l4 ≡ p.l4_len
  pub bytes : IsBytes p.l4
  pub zeroed :
      (off : ℕ)
      → l4_csum_off p.proto ≡ some off
      → off + 2 ≤ p.l4_len
      → store_slice p.l4 off (off + 2) (0 ∷ 0 ∷ []) ≡ p.l4
  pub udp_field : p.proto ≡ udp → 6 ≤ p.l4_len → from_bytes 0 (slice p.l4 4 6) ≡ udp_cov p

low_nibble_or : (n : ℕ) → n < 16 → bit_or 80 n < 256
low_nibble_or n h = omega (arith, bit_or_disjoint 4 5 n (omega arith))

set-IsBytes : (xs : Bytes) (i v : ℕ) → IsBytes xs → v < 256 → IsBytes (set xs i v)
set-IsBytes [] i v h k = tt
set-IsBytes (x ∷ xs) zero v h k = (k, h.1)
set-IsBytes (x ∷ xs) (suc i) v h k = (h.0, set-IsBytes xs i v h.1 k)

module _ (n : ℕ) (b : Bytes) (len : length b ≡ n) where
  length-zero_at : (o : Option ℕ) → length (zero_at o n b) ≡ n
  unfolding zero_at
  length-zero_at none = len
  length-zero_at (some off) = elim (Bool-cases (leb (off + 2) n)) [
    | inl e ↦
        let h : off + 2 ≤ n = leb→le (off + 2) n e in
        rw e (
          length-store_slice b off (off + 2) (omega arith) (omega arith) (0 ∷ 0 ∷ []) (omega arith)
          ∙ len)
    | inr e ↦ rw e len
  ]

  zero_at-IsBytes : (o : Option ℕ) → IsBytes b → IsBytes (zero_at o n b)
  unfolding zero_at
  zero_at-IsBytes none h = h
  zero_at-IsBytes (some off) h = elim (Bool-cases (leb (off + 2) n)) [
    | inl e ↦ rw e (store_slice-IsBytes b off (off + 2) (0 ∷ 0 ∷ []) h (omega arith))
    | inr e ↦ rw e h
  ]

  zero_at-zeroed :
      (off : ℕ)
      → off + 2 ≤ n
      → store_slice (zero_at (some off) n b) off (off + 2) (0 ∷ 0 ∷ []) ≡ zero_at (some off) n b
  unfolding zero_at
  zero_at-zeroed off h =
      let e : leb (off + 2) n ≡ true = ground arith in
      rw e (
        store_slice_twice b off (off + 2) (omega arith) (omega arith) (0 ∷ 0 ∷ []) (0 ∷ 0 ∷ [])
          (omega arith))

  -- The UDP Length field stands before the field that is zeroed.
  zero_at_udp : slice (zero_at (some 6) n b) 4 6 ≡ slice b 4 6
  unfolding zero_at
  zero_at_udp = elim (Bool-cases (leb 8 n)) [
    | inl e ↦
        let h : 8 ≤ n = leb→le 8 n e in
        rw e (
          slice_before b 6 8 (omega arith) (omega arith) 4 6 (0 ∷ 0 ∷ []) (omega arith)
            (omega arith))
    | inr e ↦ rw e refl
  ]

module _ (p : Packet) (b : Bytes) (len : length b ≡ p.l4_len) (bytes : IsBytes b) where
  length-tcp_offset : length (tcp_offset p b) ≡ p.l4_len
  unfolding tcp_offset
  length-tcp_offset =
      ground (arith, length-set b 12 (bit_or (shl 5 4) (low_bits (get_or b 12 0) 4)))

  tcp_offset-IsBytes : IsBytes (tcp_offset p b)
  unfolding tcp_offset
  tcp_offset-IsBytes = elim (Bool-cases ((p.proto == tcp) && leb 20 p.l4_len)) [
    | inl e ↦ rw e (
        set-IsBytes b 12 (bit_or (shl 5 4) (low_bits (get_or b 12 0) 4)) bytes
          (low_nibble_or (get_or b 12 0 % 2 ^ 4) (omega arith)))
    | inr e ↦ rw e bytes
  ]

-- The UDP Length is written, or the packet needs none.
data Lengthed (p : Packet) (b c : Bytes) : Type 0 where
  plain : c ≡ b → ¬ ((p.proto ≡ udp) × (6 ≤ p.l4_len)) → Lengthed p b c
  written :
      (ul : ℕ)
      → ul < 2 ^ 16
      → 6 ≤ p.l4_len
      → ul ≡ Option.get_or p.udp_len p.l4_len
      → c ≡ store_slice b 4 6 (field16 ul)
      → Lengthed p b c

udp_length-Lengthed : (p : Packet) (b c : Bytes) → udp_length p b ≡ ok c → Lengthed p b c
unfolding udp_length to_bytes2
udp_length-Lengthed p b c h = elim (Bool-cases ((p.proto == udp) && leb 6 p.l4_len)) [
  | inr e ↦ plain (ground arith) (ground arith)
  | inl e ↦
      let ul : ℕ = Option.get_or p.udp_len p.l4_len in
      elim (Bool-cases (ltb ul (2 ^ 16))) [
        | inl fits ↦
            written ul (ltb→lt ul (2 ^ 16) fits) (ground arith) refl
              (sym (cc (rw (e, to_bytes2, fits) at h)))
        | inr large ↦ absurd (cc (rw (e, to_bytes2, large) at h))
      ]
]

field16-IsBytes : (v : ℕ) → v < 2 ^ 16 → IsBytes (field16 v)
field16-IsBytes v h = omega arith

module _ (p : Packet) (b c : Bytes) (len : length b ≡ p.l4_len) where
  Lengthed-length : Lengthed p b c → length c ≡ p.l4_len
  Lengthed-length (plain e _) = rw e len
  Lengthed-length (written ul fits l _ e) =
      rw e (length-store_slice b 4 6 (omega arith) (omega arith) (field16 ul) (omega arith) ∙ len)

  Lengthed-IsBytes : Lengthed p b c → IsBytes b → IsBytes c
  Lengthed-IsBytes (plain e _) h = rw e h
  Lengthed-IsBytes (written ul fits l _ e) h =
      rw e (store_slice-IsBytes b 4 6 (field16 ul) h (field16-IsBytes ul fits))

  Lengthed-field :
      Lengthed p b c → p.proto ≡ udp → 6 ≤ p.l4_len → from_bytes 0 (slice c 4 6) ≡ udp_cov p
  Lengthed-field (plain e n) u l = absurd (n (u, l))
  Lengthed-field (written ul fits l v e) u _ =
      let s : slice (store_slice b 4 6 (field16 ul)) 4 6 ≡ field16 ul =
        slice-store_slice b 4 6 (omega arith) (omega arith) (field16 ul) (omega arith) in
      rw (e, s) (unfold udp_cov in ground arith)

pub udp_off : (proto : ℕ) → proto ≡ udp → l4_csum_off proto ≡ some 6
unfolding l4_csum_off
udp_off proto u = rw u refl

module _ (rng : Random) where
  open rng use {State, seeded}

  IsBuilt-l4 :
      (p : Packet) (s : State) (c : Bytes)
      → udp_length p (tcp_offset p (rand_bytes rng p.l4_len s).0) ≡ ok c
      → (a : Bytes) → IsBuilt (record p { l4 = zero_field p c; addr_bytes = some a })
  IsBuilt-l4 p s c h a =
      let r : Bytes = (rand_bytes rng p.l4_len s).0 in
      let rl : length r ≡ p.l4_len = length-rand_bytes rng p.l4_len s in
      let b : Bytes = tcp_offset p r in
      let bl : length b ≡ p.l4_len = length-tcp_offset p r rl (rand_bytes-IsBytes rng p.l4_len s) in
      let bb : IsBytes b = tcp_offset-IsBytes p r rl (rand_bytes-IsBytes rng p.l4_len s) in
      let w : Lengthed p b c = udp_length-Lengthed p b c h in
      let cl : length c ≡ p.l4_len = Lengthed-length p b c bl w in
      unfold zero_field udp_cov in
      record {
        length_l4 = length-zero_at p.l4_len c cl (l4_csum_off p.proto);
        bytes =
            zero_at-IsBytes p.l4_len c cl (l4_csum_off p.proto) (Lengthed-IsBytes p b c bl w bb);
        zeroed = λ off e k. rw e (zero_at-zeroed p.l4_len c cl off k);
        udp_field = λ u k.
            let z : slice (zero_field p c) 4 6 ≡ slice c 4 6 =
              rw (udp_off p.proto u) (zero_at_udp p.l4_len c cl) in
            ap (from_bytes 0) z ∙ Lengthed-field p b c bl w u k;
      }

  -- What a successful `build` returns: the packet with its addresses and its L4 part drawn.
  build_ok :
      (p q : Packet)
      → build rng p ≡ ok q
      → (c : Bytes) × (udp_length p
            (tcp_offset p (rand_bytes rng p.l4_len (addrs rng p (seeded p.seed)).1).0)
          ≡ ok c)
        × (q ≡ record p { l4 = zero_field p c; addr_bytes = some (addrs rng p (seeded p.seed)).0 })
  unfolding build l4_bytes
  build_ok p q h =
      let (l, e1, e2) = bind_ok (l4_bytes rng p (addrs rng p (seeded p.seed)).1) _ h in
      let (c, e3, e4) = bind_ok (udp_length p _) _ e1 in
      (
        c,
        e3,
        sym (ok-injective e2)
            ∙ ap
                (λ (x : Bytes). record p {
                  l4 = x;
                  addr_bytes = some (addrs rng p (seeded p.seed)).0;
                })
                (sym (ok-injective e4)),
      )

  -- A successful `build` leaves an L4 part of `l4_len` bytes whose checksum field, where it has
  -- one, is zero and whose UDP Length field, where it has one, holds the length that the packet was
  -- given.
  pub build-IsBuilt : (p q : Packet) → build rng p ≡ ok q → IsBuilt q
  build-IsBuilt p q h =
      let (c, e, k) = build_ok p q h in rw k (IsBuilt-l4 p (addrs rng p (seeded p.seed)).1 c e _)
