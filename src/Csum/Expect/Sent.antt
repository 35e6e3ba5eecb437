-- ===== src/Csum/Expect/Sent.antt =====
-- `expect` of the frame that `frame` builds, for a built IPv4 packet that is not cut.
use mathlib.Core.List.{append_assoc}
use mathlib.Core.Option
use emac_zero.Base.{
  Bool, Bool-cases, arith, false, if◌then◌else◌, inl, inr, leb, length, length-append, refl, sym,
  true, ℕ, ◌&&◌, ◌*◌, ◌++◌, ◌+◌, ◌==◌, ◌≡◌, ◌≤◌,
}
use emac_zero.Base.Py.{Bytes, from_bytes, ok, slice, ◌>>=◌}
use emac_zero.Base.Slices.{slice_inside, slice_middle}
use emac_zero.Csum.Draw.{Random}
use emac_zero.Csum.Expect.{Expect, expect, expect_ip, judge_ip, judge_l4}
use emac_zero.Csum.Packet.{Packet, ip_hdr_len, l3_off, l4_applies, l4_csum_off, udp, udp_cov}

-- The parts of the frame: addresses, tag and EtherType, then header, L4 part and trailer.
abbrev pub wire : Bytes → Bytes → Bytes → Bytes → Bytes
wire xs hdr l4' tr = xs ++ (hdr ++ (l4' ++ tr))

abbrev pub report : Packet → Bool → Bool × ℕ → Bool × ℕ → Expect
report p b ip l4 = record {
  done = true;
  ip4 = true;
  l4_ok = b;
  l4_udp = p.proto == udp;
  l3_end = l3_off p + p.ihl * 4 + p.l4_len;
  ip_csum_pos = l3_off p + 10;
  l4_csum_pos = l3_off p + p.ihl * 4 + Option.get_or (l4_csum_off p.proto) 0;
  ip_csum = ip.1;
  l4_csum = l4.1;
  ip_good = ip.0;
  l4_good = l4.0;
}

module _ (rng : Random) (p : Packet) (xs hdr l4' tr : Bytes) (f4 : p.family ≡ 4)
    (lx : length xs ≡ l3_off p) (lh : length hdr ≡ p.ihl * 4) (ll : length l4' ≡ p.l4_len) where
  hlen_lem : ip_hdr_len p ≡ p.ihl * 4
  unfolding ip_hdr_len
  hlen_lem = rw f4 refl

  length-wire : length (wire xs hdr l4' tr) ≡ l3_off p + p.ihl * 4 + p.l4_len + length tr
  length-wire = omega (
    arith,
    length-append xs (hdr ++ (l4' ++ tr)),
    length-append hdr (l4' ++ tr),
    length-append l4' tr,
  )

  done_lem : leb (l3_off p + p.ihl * 4 + p.l4_len) (length (wire xs hdr l4' tr)) ≡ true
  done_lem = ground (arith, length-wire)

  ip4_lem : leb (l3_off p + p.ihl * 4) (length (wire xs hdr l4' tr)) ≡ true
  ip4_lem = ground (arith, length-wire)

  hdr_lem : slice (wire xs hdr l4' tr) (l3_off p) (l3_off p + p.ihl * 4) ≡ hdr
  hdr_lem = slice_middle xs hdr (l4' ++ tr) (l3_off p) (l3_off p + p.ihl * 4) lx (omega arith)

  regroup : wire xs hdr l4' tr ≡ (xs ++ hdr) ++ (l4' ++ tr)
  regroup = sym (append_assoc xs hdr (l4' ++ tr))

  l4_lem : slice (wire xs hdr l4' tr) (l3_off p + p.ihl * 4) (l3_off p + p.ihl * 4 + p.l4_len) ≡ l4'
  l4_lem = rw regroup (
      slice_middle (xs ++ hdr) l4' tr (l3_off p + p.ihl * 4) (l3_off p + p.ihl * 4 + p.l4_len)
        (omega (arith, length-append xs hdr)) (omega arith))

  len_lem :
      6 ≤ p.l4_len
      → slice (wire xs hdr l4' tr) (l3_off p + p.ihl * 4 + 4) (l3_off p + p.ihl * 4 + 6)
        ≡ slice l4' 4 6
  len_lem h = rw regroup (
      slice_inside (xs ++ hdr) l4' tr (l3_off p + p.ihl * 4) 4 2
        (omega (arith, length-append xs hdr)) (omega arith))

  -- The length that `expect` reads decides like the packet's own.
  cover_lem :
      (p.proto ≡ udp → 6 ≤ p.l4_len → from_bytes 0 (slice l4' 4 6) ≡ udp_cov p)
      → (if (p.proto == udp) && leb 6 p.l4_len
          then from_bytes 0
              (slice (wire xs hdr l4' tr) (l3_off p + p.ihl * 4 + 4) (l3_off p + p.ihl * 4 + 6))
          else p.l4_len)
        ≡ (if (p.proto == udp) && leb 6 p.l4_len then udp_cov p else p.l4_len)
  cover_lem u = elim (Bool-cases ((p.proto == udp) && leb 6 p.l4_len)) [
    | inr e ↦ rw e refl
    | inl e ↦
        let l : 6 ≤ p.l4_len = ground arith in
        let q : p.proto ≡ udp = ground arith in rw (e, len_lem l) (u q l)
  ]

  pub expect_parts :
      (b : Bool) (ip l4 : Bool × ℕ)
      → (p.proto ≡ udp → 6 ≤ p.l4_len → from_bytes 0 (slice l4' 4 6) ≡ udp_cov p)
      → judge_ip hdr ≡ ip
      → l4_applies rng p (if (p.proto == udp) && leb 6 p.l4_len then udp_cov p else p.l4_len) ≡ ok b
      → (if b
          then judge_l4 p l4'
              (Option.get_or (l4_csum_off p.proto) 0)
              (if (p.proto == udp) && leb 6 p.l4_len then udp_cov p else p.l4_len)
          else ok (false, 0))
        ≡ ok l4
      → expect rng p (wire xs hdr l4' tr) ≡ ok (report p b ip l4)
  unfolding expect expect_ip
  expect_parts b ip l4 u j ans k =
      let f0 : (p.family == 0) ≡ false = ground arith in
      let ff : (p.family == 4) ≡ true = ground arith in
      let bt : (b && true) ≡ b = ground arith in
      rw
        (
          f0,
          ff,
          hlen_lem,
          done_lem,
          ip4_lem,
          hdr_lem,
          l4_lem,
          cover_lem u,
          j,
          ans,
          expect_ip,
          ◌>>=◌,
          bt,
          k,
        )
        refl
