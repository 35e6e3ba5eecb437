-- ===== src/Csum/Expect/Fill.antt =====
-- What `frame` puts into the L4 part of a built IPv4 packet, and that `expect` decides the same from
-- the frame.
use emac_zero.Base.{
  ==_iff, Bool, Bool-cases, Option-cases, arith, false, if◌then◌else◌, inl, inr, leb, length, ltb,
  not, refl, some, true, ℕ, ◌&&◌, ◌+◌, ◌<◌, ◌==◌, ◌^◌, ◌||◌, ◌≡◌, ◌≤◌,
}
use emac_zero.Base.Py.{Bytes, ok, store_slice, to_bytes2, to_bytes2_lem}
use emac_zero.Csum.Draw.{Random}
use emac_zero.Csum.Expect.{l4_csum}
use emac_zero.Csum.Frame.{fill_l4, l4_filled, sent_l4_csum}
use emac_zero.Csum.Frame.Corrupt.{sent_l4_csum-lt}
use emac_zero.Csum.Frame.Header.{CanSend}
use emac_zero.Csum.Opts.{ip4_opts_skip}
use emac_zero.Csum.Packet.{
  Packet, icmp, icmpv6, l4_applies, l4_csum_off, tcp, udp, udp_cov, version_applies,
}
use emac_zero.Csum.Packet.Built.{IsBuilt, udp_off}
use emac_zero.Csum.Packet.Sums.{l4_csum_ok}
use emac_zero.Csum.Sum.Insert.{field16}

-- Where the checksum does not apply the L4 part goes out as built; where it does, its field holds
-- what `sent_l4_csum` makes of the checksum.
pub data Filled (p : Packet) (l4' : Bytes) : Bool → Type 0 where
  skipped : l4' ≡ p.l4 → Filled p l4' false
  filled :
      (off c : ℕ)
      → l4_csum_off p.proto ≡ some off
      → off + 2 ≤ p.l4_len
      → l4_csum p p.l4 (udp_cov p) ≡ ok c
      → c < 2 ^ 16
      → l4' ≡ store_slice p.l4 off (off + 2) (field16 (sent_l4_csum p c))
      → Filled p l4' true

module _ (rng : Random) (p : Packet) (a o : Bytes) (built : IsBuilt p)
    (can : CanSend rng p a o) where
  version_ok : (b : Bool) × (version_applies rng p ≡ ok b)
  version_ok = elim (Bool-cases (p.family == 4)) [
    | inl f ↦
        elim (Bool-cases (
          (p.proto == tcp || p.proto == udp || p.proto == icmp) && (not p.mf && p.frag_off == 0))) [
            | inl t ↦ (not (ip4_opts_skip o), unfold version_applies in rw (f, t, can.opts) refl)
            | inr t ↦ (false, unfold version_applies in rw (f, t) refl)
          ]
    | inr f ↦ elim (Bool-cases (p.family == 6)) [
      | inl g ↦ (
        p.proto == tcp || p.proto == udp || p.proto == icmpv6,
        unfold version_applies in rw (f, g) refl,
      )
      | inr g ↦ (false, unfold version_applies in rw (f, g) refl)
    ]
  ]

  -- The answer of `_l4_applies`, and what a positive one says of the lengths.
  applies_ok :
      (ul : ℕ)
      → (b : Bool) × (l4_applies rng p ul ≡ ok b)
        × (b ≡ true → (off : ℕ) × (l4_csum_off p.proto ≡ some off) × (off + 2 ≤ p.l4_len))
  applies_ok ul = elim (Option-cases (l4_csum_off p.proto)) [
    | inl e ↦ (false, unfold l4_applies in rw (e, l4_applies) refl, λ h. cc)
    | inr (off, e) ↦ elim (Bool-cases (ltb p.l4_len (off + 2))) [
      | inl short ↦ (false, unfold l4_applies in rw (e, l4_applies, short) refl, λ h. cc)
      | inr room ↦ elim (Bool-cases ((p.proto == udp) && not (leb 8 ul && leb ul p.l4_len))) [
        | inl bad ↦ (false, unfold l4_applies in rw (e, l4_applies, room, bad) refl, λ h. cc)
        | inr fine ↦
            let (b, v) = version_ok in
            (b, unfold l4_applies in rw (e, l4_applies, room, fine) v, λ h. (off, e, ground arith))
      ]
    ]
  ]

  -- The length that `expect` takes from a whole frame decides like the packet's own.
  pub applies_cover :
      l4_applies rng p (if (p.proto == udp) && leb 6 p.l4_len then udp_cov p else p.l4_len)
      ≡ l4_applies rng p (udp_cov p)
  applies_cover = elim (Bool-cases (p.proto == udp)) [
    | inr other ↦ unfold udp_cov in rw other refl
    | inl u ↦ elim (Bool-cases (leb 6 p.l4_len)) [
      | inl l ↦ rw (u, l) refl
      | inr short ↦
          let e : l4_csum_off p.proto ≡ some 6 = udp_off p.proto ((==_iff p.proto udp).0 u) in
          let s : ltb p.l4_len (6 + 2) ≡ true = ground arith in
          rw (u, short) (unfold l4_applies in rw (e, l4_applies, s) refl)
    ]
  ]

  -- `frame` fills the L4 part in without an exception.
  pub fill_ok :
      p.family ≡ 4
      → p.l4_len < 2 ^ 16
      → (b : Bool) × (l4' : Bytes) × (l4_applies rng p (udp_cov p) ≡ ok b)
        × (l4_filled rng p ≡ ok l4')
        × Filled p l4' b
  fill_ok f4 size = let (b, e, more) = applies_ok (udp_cov p) in go b e more
    where
      go :
          (b : Bool)
          → l4_applies rng p (udp_cov p) ≡ ok b
          → (b ≡ true → (off : ℕ) × (l4_csum_off p.proto ≡ some off) × (off + 2 ≤ p.l4_len))
          → (b : Bool) × (l4' : Bytes) × (l4_applies rng p (udp_cov p) ≡ ok b)
            × (l4_filled rng p ≡ ok l4')
            × Filled p l4' b
      go false e more = (false, p.l4, e, unfold l4_filled fill_l4 in rw e refl, skipped refl)
      go true e more =
          let (off, eo, lo) = more refl in
          let l : length p.l4 < 2 ^ 16 = omega (arith, built.length_l4) in
          let (c, ec, lc) = l4_csum_ok p a p.l4 (udp_cov p) f4 can.addr can.proto l in
          let w : to_bytes2 (sent_l4_csum p c) ≡ ok (field16 (sent_l4_csum p c)) =
            to_bytes2_lem (sent_l4_csum p c) (sent_l4_csum-lt p c lc) in
          (
            true,
            store_slice p.l4 off (off + 2) (field16 (sent_l4_csum p c)),
            e,
            unfold l4_filled fill_l4 in rw (e, eo, ec, w) refl,
            filled off c eo lo ec lc refl,
          )
