-- ===== src/Csum/Expect.antt =====
-- `Packet.expect`, `force_zero_l4_csum` and `pad60` of sim/cocotb/lib/csum.py.
pub mod L4
pub mod Fill
pub mod Ip4
pub mod Sent
pub mod Own
use mathlib.Core.Option
use emac_zero.Base.{
  Bool, Option, [], false, get_or, if◌then◌else◌, leb, length, replicate, true, ℕ, ◌&&◌, ◌++◌, ◌+◌,
  ◌-◌, ◌==◌, ◌∷◌,
}
use emac_zero.Base.Bits.{low_bits, shr}
use emac_zero.Base.Py.{
  Bytes, Result, check_that, from_bytes, ok, slice, store_slice, to_bytes2, ◌>>=◌, ◌>>◌,
}
use emac_zero.Csum.Draw.{Random}
use emac_zero.Csum.Frame.{frame}
use emac_zero.Csum.Packet.{
  Packet, ip_hdr_len, l3_off, l4_applies, l4_csum, l4_csum_off, udp, udp_cov,
}
use emac_zero.Csum.Sum.{csum, ones_sum}

pub record Expect : Type 0 where
  pub done : Bool
  pub ip4 : Bool
  pub l4_ok : Bool
  pub l4_udp : Bool
  pub l3_end : ℕ
  pub ip_csum_pos : ℕ
  pub l4_csum_pos : ℕ
  pub ip_csum : ℕ
  pub l4_csum : ℕ
  pub ip_good : Bool
  pub l4_good : Bool

abbrev pub not_ip : Expect
not_ip = record {
  done = false;
  ip4 = false;
  l4_ok = false;
  l4_udp = false;
  l3_end = 0;
  ip_csum_pos = 0;
  l4_csum_pos = 0;
  ip_csum = 0;
  l4_csum = 0;
  ip_good = false;
  l4_good = false;
}

-- The header's verdict, and the checksum it should hold: the `if ip4:` branch.
unfoldable pub judge_ip : Bytes → Bool × ℕ
judge_ip hdr = (ones_sum hdr == 0xFFFF, csum (store_slice hdr 10 12 (0 ∷ 0 ∷ [])))

-- The L4 verdict, and the checksum it should hold: the `if applies:` branch.
unfoldable pub judge_l4 : Packet → Bytes → ℕ → ℕ → Result (Bool × ℕ)
judge_l4 p l4 off cover = do
  let field_val = from_bytes 0 (slice l4 off (off + 2))
  c ← l4_csum p (store_slice l4 off (off + 2) (0 ∷ 0 ∷ [])) cover
  ok (
    if (p.proto == udp) && (field_val == 0)
        then true
        else field_val == (if (p.proto == udp) && (c == 0) then 0xFFFF else c),
    c,
  )

module _ (rng : Random) where
  expect_ip : Packet → Bytes → Result Expect
  expect_ip p f = do
    let l3 = l3_off p
    let hlen = ip_hdr_len p
    let l3_end = l3 + hlen + p.l4_len
    let l4s = l3 + hlen
    let done = leb l3_end (length f)
    let ip4 = (p.family == 4) && leb l4s (length f)
    let ip = if ip4 then judge_ip (slice f l3 (l3 + hlen)) else (true, 0)
    let cover =
        if (p.proto == udp) && (done && leb 6 p.l4_len)
        then from_bytes 0 (slice f (l4s + 4) (l4s + 6))
        else p.l4_len
    fits ← l4_applies rng p cover
    let applies = fits && done
    let off = Option.get_or (l4_csum_off p.proto) 0
    l4 ← (if applies then judge_l4 p (slice f l4s l3_end) off cover else ok (false, 0))
    ok (record {
      done = done;
      ip4 = ip4;
      l4_ok = applies;
      l4_udp = p.proto == udp;
      l3_end = l3_end;
      ip_csum_pos = l3 + 10;
      l4_csum_pos = l4s + off;
      ip_csum = ip.1;
      l4_csum = l4.1;
      ip_good = ip.0;
      l4_good = l4.0;
    })

  -- `p.expect(f)`
  unfoldable pub expect : Packet → Bytes → Result Expect
  unfolding expect_ip
  expect p f = if p.family == 0 then ok not_ip else expect_ip p f

  -- `p.expect()`
  unfoldable pub expect_own : Packet → Result Expect
  unfolding expect frame
  expect_own p = do pf ← frame rng p; expect pf.0 pf.1

  -- `force_zero_l4_csum`
  unfoldable pub force_zero_l4_csum : Packet → Result Packet
  force_zero_l4_csum p = do
    applies ← l4_applies rng p (udp_cov p)
    check_that (leb 10 p.l4_len && applies)
    c ← l4_csum p p.l4 (udp_cov p)
    let w = from_bytes 0 (slice p.l4 8 10) + c
    w2 ← to_bytes2 (low_bits w 16 + shr w 16)
    let l4' = store_slice p.l4 8 10 w2
    again ← l4_csum (record p { l4 = l4' }) l4' (udp_cov p)
    check_that (again == 0)
    ok (record p { l4 = l4' })

unfoldable pub pad60 : Bytes → Bytes
pad60 f = f ++ replicate (60 - length f) 0
