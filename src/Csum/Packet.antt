-- ===== src/Csum/Packet.antt =====
-- `Packet` of sim/cocotb/lib/csum.py: its state, its construction and when its L4 checksum applies.
-- Numbers that the code never takes below 0 are ℕ; `None` is `none`.
pub mod Built
pub mod Sums
use mathlib.Core.Option
use emac_zero.Base.{
  Bool, Option, [], bit_or, bit_xor, false, get_or, if◌then◌else◌, leb, length, ltb, none, not, set,
  some, take, ℕ, ◌&&◌, ◌*◌, ◌++◌, ◌+◌, ◌-◌, ◌==◌, ◌||◌, ◌∷◌,
}
use emac_zero.Base.Bits.{low_bits, shl}
use emac_zero.Base.Py.{
  Bytes, Result, as_byte, attribute_error, check_that, cut_end, err, ok, store_slice, to_bytes2,
  to_bytes4, ◌>>=◌, ◌>>◌,
}
use emac_zero.Csum.Draw.{Random, rand_bytes, random_opts}
use emac_zero.Csum.Opts.{ip4_opts_skip}
use emac_zero.Csum.Sum.{csum}

abbrev pub icmp : ℕ
icmp = 1

abbrev pub tcp : ℕ
tcp = 6

abbrev pub udp : ℕ
udp = 17

abbrev pub icmpv6 : ℕ
icmpv6 = 58

-- L4_CSUM_OFF.get(proto)
unfoldable pub l4_csum_off : ℕ → Option ℕ
l4_csum_off proto =
    if proto == tcp
    then some 16
    else if proto == udp
    then some 6
    else if proto == icmp
    then some 2
    else if proto == icmpv6
    then some 2
    else none

-- `l4` is `_l4`; `addr_bytes` is `_addr_bytes`, an attribute that `build` makes.
pub record Packet : Type 0 where
  pub vlan : ℕ
  pub family : ℕ
  pub proto : ℕ
  pub l4_len : ℕ
  pub ihl : ℕ
  pub mf : Bool
  pub frag_off : ℕ
  pub trailer : Bytes
  pub bad_ip : Bool
  pub bad_l4 : Bool
  pub udp_zero : Bool
  pub udp_len : Option ℕ
  pub opts : Option Bytes
  pub truncate : ℕ
  pub seed : ℕ
  pub l4 : Bytes
  pub addr_bytes : Option Bytes

unfoldable pub l3_off : Packet → ℕ
l3_off p = if p.vlan == 0 then 14 else 18

unfoldable pub ip_hdr_len : Packet → ℕ
ip_hdr_len p = if p.family == 4 then p.ihl * 4 else 40

-- `_udp_cov`
unfoldable pub udp_cov : Packet → ℕ
udp_cov p = if p.proto == udp then Option.get_or p.udp_len p.l4_len else p.l4_len

-- Reading `_addr_bytes` before `build` has run raises.
unfoldable pub addresses : Packet → Result Bytes
addresses p = elim p.addr_bytes [ none ↦ err attribute_error | some a ↦ ok a ]

-- `_cut`
unfoldable pub cut : Packet → Bytes → Bytes
cut p dgram = cut_end dgram p.truncate

-- `_l4_csum(l4, cover)`; the call without `cover` passes `udp_cov p`.
unfoldable pub l4_csum : Packet → Bytes → ℕ → Result ℕ
l4_csum p whole cover =
    let l4 = take cover whole in
    if (p.proto == icmp) && (p.family == 4) then ok (csum l4) else do
      addr ← addresses p
      proto ← as_byte p.proto
      len2 ← to_bytes2 (length l4)
      if p.family == 6
          then (do
            len4 ← to_bytes4 (length l4)
            ok (csum ((addr ++ (len4 ++ 0 ∷ 0 ∷ 0 ∷ proto ∷ [])) ++ l4)))
          else ok (csum ((addr ++ (0 ∷ proto ∷ len2)) ++ l4))

-- `_l4_bytes`: the TCP data offset, the UDP length and the zeroed checksum field.
tcp_offset : Packet → Bytes → Bytes
tcp_offset p b =
    if (p.proto == tcp) && leb 20 p.l4_len
    then set b 12 (bit_or (shl 5 4) (low_bits (get_or b 12 0) 4))
    else b

udp_length : Packet → Bytes → Result Bytes
udp_length p b =
    if (p.proto == udp) && leb 6 p.l4_len
    then (do ul ← to_bytes2 (Option.get_or p.udp_len p.l4_len); ok (store_slice b 4 6 ul))
    else ok b

zero_at : Option ℕ → ℕ → Bytes → Bytes
zero_at none n b = b
zero_at (some off) n b = if leb (off + 2) n then store_slice b off (off + 2) (0 ∷ 0 ∷ []) else b

zero_field : Packet → Bytes → Bytes
unfolding zero_at
zero_field p b = zero_at (l4_csum_off p.proto) p.l4_len b

module _ (rng : Random) where
  open rng use {State, seeded}

  -- `_addrs`
  addrs : Packet → State → Bytes × State
  addrs p s = rand_bytes rng (if p.family == 4 then 8 else 32) s

  unfoldable pub l4_bytes : Packet → State → Result Bytes
  unfolding tcp_offset udp_length zero_field
  l4_bytes p s = do
    let b = tcp_offset p (rand_bytes rng p.l4_len s).0
    b' ← udp_length p b
    ok (zero_field p b')

  unfoldable pub build : Packet → Result Packet
  unfolding addrs l4_bytes
  build p = do
    let s = seeded p.seed
    let drawn = addrs p s
    l4' ← l4_bytes p drawn.1
    ok (record p { l4 = l4'; addr_bytes = some drawn.0 })

  -- `_opts`
  unfoldable pub options : Packet → Result Bytes
  options p = elim p.opts [
    | some given ↦ do check_that (length given + 20 == p.ihl * 4); ok given
    | none ↦ ok (random_opts rng (seeded (bit_xor p.seed 0x5A5A)) (p.ihl * 4 - 20))
  ]

  -- The tests of `_l4_applies` that depend on the IP version.
  unfoldable pub version_applies : Packet → Result Bool
  version_applies p =
      if p.family == 4
      then (if (p.proto == tcp || p.proto == udp || p.proto == icmp)
            && (not p.mf && p.frag_off == 0)
          then (do o ← options p; ok (not (ip4_opts_skip o)))
          else ok false)
      else if p.family == 6
      then ok (p.proto == tcp || p.proto == udp || p.proto == icmpv6)
      else ok false

  -- `_l4_applies(udp_len)`; the call without an argument passes `udp_cov p`.
  unfoldable pub l4_applies : Packet → ℕ → Result Bool
  l4_applies p ul = elim (l4_csum_off p.proto) [
    | none ↦ ok false
    | some off ↦
        if ltb p.l4_len (off + 2)
        then ok false
        else if (p.proto == udp) && not (leb 8 ul && leb ul p.l4_len)
        then ok false
        else version_applies p
  ]
