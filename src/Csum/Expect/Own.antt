-- ===== src/Csum/Expect/Own.antt =====
-- What `expect` reports of the packet's own frame: for a built IPv4 packet that is not cut, the
-- datagram is found whole, and each checksum is judged good unless it was corrupted.
use mathlib.Core.List.{append_assoc}
use mathlib.Core.Option
use emac_zero.Base.{
  ==_iff, Bool, Bool-cases, [], arith, false, if◌then◌else◌, inl, inr, leb, length, length-append,
  not, refl, some, true, ℕ, ◌&&◌, ◌*◌, ◌++◌, ◌+◌, ◌<◌, ◌==◌, ◌^◌, ◌||◌, ◌∙◌, ◌∷◌, ◌≡◌, ◌≤◌,
}
use emac_zero.Base.Predicates.{IsBytes}
use emac_zero.Base.Py.{Bytes, from_bytes, ok, slice, store_slice, to_bytes2, to_bytes2_lem}
use emac_zero.Base.Slices.{
  cut_none, length-store_slice, slice-store_slice, slice_before, store_slice_twice,
}
use emac_zero.Csum.Draw.{Random}
use emac_zero.Csum.Expect.{Expect, expect, judge_l4}
use emac_zero.Csum.Expect.Fill.{Filled, applies_cover, fill_ok, filled, skipped}
use emac_zero.Csum.Expect.Ip4.{judge_header}
use emac_zero.Csum.Expect.L4.{from_field16, judged, judged_lem}
use emac_zero.Csum.Expect.Sent.{expect_parts, report, wire}
use emac_zero.Csum.Frame.{
  built_frame, ensure_built, eth_header, frame, ip4_header, l4_filled, macs, sent_ip_csum,
  sent_l4_csum,
}
use emac_zero.Csum.Frame.Corrupt.{sent_l4_csum-lt}
use emac_zero.Csum.Frame.Header.{CanSend, header_front, ip4_header-bytes}
use emac_zero.Csum.Packet.{Packet, cut, l3_off, l4_applies, l4_csum_off, udp, udp_cov}
use emac_zero.Csum.Packet.Built.{IsBuilt, udp_off}
use emac_zero.Csum.Sum.{csum}
use emac_zero.Csum.Sum.Insert.{field16}

-- The length that the L4 checksum covers, as `expect` takes it from the frame.
abbrev cover : Packet → ℕ
cover p = if (p.proto == udp) && leb 6 p.l4_len then udp_cov p else p.l4_len

module _ (p : Packet) (built : IsBuilt p) where
  length-Filled : {l4' : Bytes} {b : Bool} → Filled p l4' b → length l4' ≡ p.l4_len
  length-Filled (skipped e) = rw e built.length_l4
  length-Filled (filled off c eo lo ec lc e) = rw e (
      length-store_slice p.l4 off (off + 2) (omega arith) (omega (arith, built.length_l4))
        (field16 (sent_l4_csum p c)) (omega arith)
      ∙ built.length_l4)

  -- The checksum does not touch the UDP Length.
  Filled-udp_field :
      {l4' : Bytes} {b : Bool}
      → Filled p l4' b
      → p.proto ≡ udp
      → 6 ≤ p.l4_len
      → from_bytes 0 (slice l4' 4 6) ≡ udp_cov p
  Filled-udp_field (skipped e) u l = rw e (built.udp_field u l)
  Filled-udp_field (filled off c eo lo ec lc e) u l =
      let six : off ≡ 6 = ground (arith, udp_off p.proto u) in
      let s : slice (store_slice p.l4 off (off + 2) (field16 (sent_l4_csum p c))) 4 6
          ≡ slice p.l4 4 6 =
        slice_before p.l4 off (off + 2) (omega arith) (omega (arith, built.length_l4)) 4 6
          (field16 (sent_l4_csum p c)) (omega arith) (omega arith) in
      rw (e, s) (built.udp_field u l)

  cover_lem : (off : ℕ) → l4_csum_off p.proto ≡ some off → off + 2 ≤ p.l4_len → cover p ≡ udp_cov p
  cover_lem off e l = elim (Bool-cases (p.proto == udp)) [
    | inl u ↦
        let six : off ≡ 6 = ground (arith, udp_off p.proto ((==_iff p.proto udp).0 u)) in
        let t : leb 6 p.l4_len ≡ true = ground arith in rw (u, t) refl
    | inr u ↦ unfold udp_cov in rw u refl
  ]

  -- What the L4 part of the frame is judged.
  Filled-judged :
      {l4' : Bytes} {b : Bool}
      → Filled p l4' b
      → (v : Bool × ℕ) × ((if b
            then judge_l4 p l4' (Option.get_or (l4_csum_off p.proto) 0) (cover p)
            else ok (false, 0))
          ≡ ok v)
        × (v.0 ≡ (b && (not p.bad_l4 || ((p.proto == udp) && (v.1 == 0x0101)))))
  Filled-judged (skipped e) = ((false, 0), refl, refl)
  Filled-judged {l4'} (filled off c eo lo ec lc e) =
      let v : ℕ = sent_l4_csum p c in
      let high : off + 2 ≤ length p.l4 = omega (arith, built.length_l4) in
      let s : slice (store_slice p.l4 off (off + 2) (field16 v)) off (off + 2) ≡ field16 v =
        slice-store_slice p.l4 off (off + 2) (omega arith) high (field16 v) (omega arith) in
      let z : store_slice (store_slice p.l4 off (off + 2) (field16 v)) off (off + 2) (0 ∷ 0 ∷ [])
          ≡ p.l4 =
        store_slice_twice p.l4 off (off + 2) (omega arith) high (field16 v) (0 ∷ 0 ∷ [])
          (omega arith)
        ∙ built.zeroed off eo lo in
      let f : from_bytes 0 (field16 v) ≡ v = from_field16 v (sent_l4_csum-lt p c lc) in
      (
        (judged p c, c),
        unfold judge_l4 judged in rw (eo, cover_lem off eo lo, e, s, z, ec, f) refl,
        judged_lem p c lc,
      )

module _ (rng : Random) where
  open rng use {State, seeded, randrange, randrange-lt}

  ensure_built_ok : (p : Packet) → length p.l4 ≡ p.l4_len → ensure_built rng p ≡ ok p
  ensure_built_ok p h = go p.l4 refl
    where
      go : (xs : Bytes) → p.l4 ≡ xs → ensure_built rng p ≡ ok p
      go [] e =
          let z : (p.l4_len == 0) ≡ true = ground arith in unfold ensure_built in rw (e, z) refl
      go (b ∷ bs) e = unfold ensure_built in rw e refl

  -- The addresses and the tag, up to the EtherType.
  eth_ok :
      (p : Packet)
      → p.vlan < 2 ^ 16
      → (head : Bytes) × (s : State) × (eth_header rng p (seeded p.seed) ≡ ok (head, s))
        × (length head + 2 ≡ l3_off p)
  eth_ok p tag = elim (Bool-cases (p.vlan == 0)) [
    | inl off ↦
        (macs, seeded p.seed, unfold eth_header in rw off refl, unfold l3_off in rw off refl)
    | inr on ↦
        let (tci, s) = randrange 65536 (seeded p.seed) in
        let t : to_bytes2 tci ≡ ok (field16 tci) =
          to_bytes2_lem tci (randrange-lt 65536 (seeded p.seed) (omega arith)) in
        (
          macs ++ (field16 p.vlan ++ field16 tci),
          s,
          unfold eth_header in rw (on, to_bytes2_lem p.vlan tag, t) refl,
          unfold l3_off in rw on refl,
        )
  ]

  length-sent :
      {p : Packet} {a o : Bytes}
      → CanSend rng p a o
      → (n i v : ℕ) → length (header_front p n i ++ (field16 v ++ (a ++ o))) ≡ p.ihl * 4
  unfolding header_front
  length-sent {p} {a} {o} can n i v =
      omega (arith, length-append a o, can.length_addr, can.length_opts)

  frame_parts :
      (p : Packet) (head l4' hdr : Bytes) (s : State)
      → p.family ≡ 4
      → length p.l4 ≡ p.l4_len
      → p.truncate ≡ 0
      → eth_header rng p (seeded p.seed) ≡ ok (head, s)
      → l4_filled rng p ≡ ok l4'
      → ip4_header rng p l4' s ≡ ok hdr
      → frame rng p ≡ ok (p, wire (head ++ 8 ∷ 0 ∷ []) hdr l4' p.trailer)
  frame_parts p head l4' hdr s f4 len uncut eh ef eip =
      let f0 : (p.family == 0) ≡ false = ground arith in
      let ff : (p.family == 4) ≡ true = ground arith in
      let whole : cut p (hdr ++ l4') ≡ hdr ++ l4' =
        unfold cut in cut_none (hdr ++ l4') p.truncate uncut in
      let b : built_frame rng p ≡ ok (head ++ (8 ∷ 0 ∷ ((hdr ++ l4') ++ p.trailer))) =
        unfold built_frame in rw (eh, f0, ff, ef, eip, whole) refl in
      let g : head ++ (8 ∷ 0 ∷ ((hdr ++ l4') ++ p.trailer))
          ≡ wire (head ++ 8 ∷ 0 ∷ []) hdr l4' p.trailer =
        rw (append_assoc hdr l4' p.trailer, append_assoc head (8 ∷ 0 ∷ []) _) refl in
      unfold frame in rw (ensure_built_ok p len, b, g) refl

  -- The frame of a built IPv4 packet that is not cut, whose addresses and options are given and
  -- fill their fields and whose numbers fit theirs, is made without an exception, and `expect`
  -- finds its datagram whole and its header in place. The header is judged good exactly if it was
  -- not to be corrupted. The L4 checksum is reported exactly where it applies to the packet, and is
  -- then judged good exactly if it was not to be corrupted, or if it is a UDP checksum of 0x0101.
  pub expect-frame :
      (p : Packet) (a o : Bytes)
      → IsBuilt p
      → CanSend rng p a o
      → IsBytes a
      → IsBytes o
      → p.family ≡ 4
      → p.truncate ≡ 0
      → p.vlan < 2 ^ 16
      → p.ihl * 4 + p.l4_len < 2 ^ 16
      → (f : Bytes) × (e : Expect) × (applies : Bool) × (frame rng p ≡ ok (p, f))
        × (expect rng p f ≡ ok e)
        × (e.done ≡ true)
        × (e.ip4 ≡ true)
        × (e.ip_good ≡ not p.bad_ip)
        × (l4_applies rng p (udp_cov p) ≡ ok applies)
        × (e.l4_ok ≡ applies)
        × (e.l4_good ≡ (applies && (not p.bad_l4 || ((p.proto == udp) && (e.l4_csum == 0x0101)))))
  expect-frame p a o built can addr opts f4 uncut tag size =
      let (head, s, eh, lh) = eth_ok p tag in
      let (b, l4', ea, ef, fill) = fill_ok rng p a o built can f4 (omega arith) in
      let ll : length l4' ≡ p.l4_len = length-Filled p built fill in
      let n : ℕ = p.ihl * 4 + length l4' in
      let i : ℕ = (randrange 65536 s).0 in
      let front : Bytes = header_front p n i in
      let c0 : ℕ = csum (front ++ (field16 0 ++ (a ++ o))) in
      let hdr : Bytes = front ++ (field16 (sent_ip_csum p c0) ++ (a ++ o)) in
      let eip : ip4_header rng p l4' s ≡ ok hdr =
        ip4_header-bytes rng p l4' a o s can (omega arith) in
      let xs : Bytes = head ++ 8 ∷ 0 ∷ [] in
      let (v, ev, gv) = Filled-judged p built fill in
      let e : Expect = report p b (not p.bad_ip, c0) v in
      (
        wire xs hdr l4' p.trailer,
        e,
        b,
        frame_parts p head l4' hdr s f4 built.length_l4 uncut eh ef eip,
        expect_parts rng p xs hdr l4' p.trailer f4 (omega (arith, length-append head (8 ∷ 0 ∷ [])))
            (length-sent can n i (sent_ip_csum p c0)) ll b (not p.bad_ip, c0) v
            (Filled-udp_field p built fill)
            (judge_header rng p a o can addr opts n i (omega arith)
              (randrange-lt 65536 s (omega arith)))
            (applies_cover rng p a o built can ∙ ea) ev,
        refl,
        refl,
        refl,
        ea,
        refl,
        gv,
      )
