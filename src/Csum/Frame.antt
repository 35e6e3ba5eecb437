-- ===== src/Csum/Frame.antt =====
-- `Packet.frame` of sim/cocotb/lib/csum.py.
pub mod Corrupt
pub mod Header
use mathlib.Core.Option
use emac_zero.Base.{
  Bool, Option, [], bit_or, bit_xor, get_or, if◌then◌else◌, length, replicate, ℕ, ◌&&◌, ◌*◌, ◌++◌,
  ◌+◌, ◌==◌, ◌∷◌,
}
use emac_zero.Base.Bits.{low_bits}
use emac_zero.Base.Py.{Bytes, Result, ok, store, store_slice, to_bytes2, ◌>>=◌, ◌>>◌}
use emac_zero.Csum.Draw.{Random}
use emac_zero.Csum.Packet.{
  Packet, addresses, build, cut, l4_applies, l4_csum, l4_csum_off, options, udp, udp_cov,
}
use emac_zero.Csum.Sum.{csum}
use emac_zero.Csum.Sum.Fold.{total}

-- bytes.fromhex("020000000001") + bytes.fromhex("0a0b0c0d0e0f")
abbrev pub macs : Bytes
macs = 2 ∷ 0 ∷ 0 ∷ 0 ∷ 0 ∷ 1 ∷ 10 ∷ 11 ∷ 12 ∷ 13 ∷ 14 ∷ 15 ∷ []

-- The value of the L4 checksum field: the checksum, 0xFFFF for a UDP checksum of 0, 0 where UDP
-- is to send none, and the corruption.
unfoldable pub sent_l4_csum : Packet → ℕ → ℕ
sent_l4_csum p c =
    let c1 = if (p.proto == udp) && (c == 0) then 0xFFFF else c in
    let c2 = if (p.proto == udp) && p.udp_zero then 0 else c1 in
    if p.bad_l4 then bit_xor c2 0x0101 else c2

-- The corruption of the IPv4 header checksum.
unfoldable pub sent_ip_csum : Packet → ℕ → ℕ
sent_ip_csum p c = if p.bad_ip then bit_xor c 0x8001 else c

unfoldable pub ip6_header : Packet → Bytes → Result Bytes
ip6_header p l4' = do
  hdr0 ← store (replicate 40 0) 0 0x60
  len ← to_bytes2 (length l4')
  hdr6 ← store (store_slice hdr0 4 6 len) 6 p.proto
  hdr7 ← store hdr6 7 64
  addr ← addresses p
  ok (store_slice hdr7 8 40 addr)

-- The checksum over the header, put into its field.
unfoldable pub seal_ip4 : Packet → Bytes → Result Bytes
unfolding sent_ip_csum
seal_ip4 p hdr = do c ← to_bytes2 (sent_ip_csum p (csum hdr)); ok (store_slice hdr 10 12 c)

module _ (rng : Random) where
  open rng use {State, seeded, randrange}

  -- The addresses and the tag, and the generator after the tag's draw.
  unfoldable pub eth_header : Packet → State → Result (Bytes × State)
  eth_header p s = if p.vlan == 0 then ok (macs, s) else do
    tpid ← to_bytes2 p.vlan
    let (tci, s') = randrange 65536 s
    tag ← to_bytes2 tci
    ok (macs ++ (tpid ++ tag), s')

  unfoldable pub fill_l4 : Packet → Bool → Result Bytes
  unfolding sent_l4_csum
  fill_l4 p applies =
      if applies
      then (do
        let off = Option.get_or (l4_csum_off p.proto) 0
        c ← l4_csum p p.l4 (udp_cov p)
        cc2 ← to_bytes2 (sent_l4_csum p c)
        ok (store_slice p.l4 off (off + 2) cc2))
      else ok p.l4

  unfoldable pub l4_filled : Packet → Result Bytes
  unfolding fill_l4
  l4_filled p = do applies ← l4_applies rng p (udp_cov p); fill_l4 p applies

  -- The assignments up to `hdr[9] = self.proto`, for an L4 part of `n` bytes.
  unfoldable pub ip4_numbers : Packet → ℕ → State → Result Bytes
  ip4_numbers p n s = do
    hdr0 ← store (replicate (p.ihl * 4) 0) 0 (bit_or 0x40 p.ihl)
    total ← to_bytes2 (p.ihl * 4 + n)
    ident ← to_bytes2 (randrange 65536 s).0
    frag ← to_bytes2 (bit_or (if p.mf then 0x2000 else 0) (low_bits p.frag_off 13))
    hdr8 ← store (store_slice (store_slice (store_slice hdr0 2 4 total) 4 6 ident) 6 8 frag) 8 64
    store hdr8 9 p.proto

  unfoldable pub ip4_header : Packet → Bytes → State → Result Bytes
  unfolding ip4_numbers seal_ip4
  ip4_header p l4' s = do
    hdr9 ← ip4_numbers p (length l4') s
    addr ← addresses p
    o ← options rng p
    seal_ip4 p (store_slice (store_slice hdr9 12 20 addr) 20 (p.ihl * 4) o)

  unfoldable pub ensure_built : Packet → Result Packet
  unfolding build
  ensure_built p = elim p.l4 [ [] ↦ if p.l4_len == 0 then ok p else build rng p | b ∷ bs ↦ ok p ]

  -- The frame, and the packet, which a first call builds.
  unfoldable pub built_frame : Packet → Result Bytes
  unfolding eth_header l4_filled ip4_header ip6_header
  built_frame p = do
    head ← eth_header p (seeded p.seed)
    if p.family == 0 then ok (head.0 ++ ((0x88 ∷ 0xb5 ∷ p.l4) ++ p.trailer)) else do
      l4' ← l4_filled p
      if p.family == 4
          then (do
            hdr ← ip4_header p l4' head.1
            ok (head.0 ++ (8 ∷ 0 ∷ (cut p (hdr ++ l4') ++ p.trailer))))
          else do
            hdr ← ip6_header p l4'
            ok (head.0 ++ (0x86 ∷ 0xdd ∷ (cut p (hdr ++ l4') ++ p.trailer)))

  unfoldable pub frame : Packet → Result (Packet × Bytes)
  unfolding ensure_built built_frame cut
  frame p = do p' ← ensure_built p; f ← built_frame p'; ok (p', f)
