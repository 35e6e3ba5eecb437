-- ===== src/Csum/Frame/Corrupt.antt =====
-- The two corruptions of a checksum, checked at each of the 65536 values.
use mathlib.Core.Bool.{xor}
use emac_zero.Base.{
  Bool, arith, bit_xor, ltb, not, refl, true, ℕ, ◌%◌, ◌&&◌, ◌<◌, ◌==◌, ◌^◌, ◌≡◌, ◌≢◌,
}
use emac_zero.Base.Bits.{all_below, all_below_sound}
use emac_zero.Csum.Frame.{sent_ip_csum, sent_l4_csum}
use emac_zero.Csum.Packet.{Packet}

abbrev ip_flip : ℕ → Bool
ip_flip c = ltb (bit_xor c 0x8001) (2 ^ 16) && not (bit_xor c 0x8001 % 65535 == c % 65535)

ip_flip_table : all_below 65536 ip_flip ≡ true
unfolding all_below
ip_flip_table = refl

abbrev l4_flip : ℕ → Bool
l4_flip c =
    ltb (bit_xor c 0x0101) (2 ^ 16)
    && (not (bit_xor c 0x0101 == c) && not (xor (bit_xor c 0x0101 == 0) (c == 0x0101)))

l4_flip_table : all_below 65536 l4_flip ≡ true
unfolding all_below xor
l4_flip_table = refl

-- The corrupted header checksum is another value, also modulo 0xFFFF.
pub ip_flip_lem :
    (c : ℕ) → c < 2 ^ 16 → (bit_xor c 0x8001 < 2 ^ 16) × (bit_xor c 0x8001 % 65535 ≢ c % 65535)
ip_flip_lem c h = ground (arith, all_below_sound 65536 ip_flip c ip_flip_table h)

pub l4_flip_lem :
    (c : ℕ)
    → c < 2 ^ 16
    → (bit_xor c 0x0101 < 2 ^ 16)
      × (bit_xor c 0x0101 ≢ c)
      × ((bit_xor c 0x0101 == 0) ≡ (c == 0x0101))
unfolding xor
l4_flip_lem c h = ground (arith, all_below_sound 65536 l4_flip c l4_flip_table h)

pub sent_ip_csum-lt : (p : Packet) (c : ℕ) → c < 2 ^ 16 → sent_ip_csum p c < 2 ^ 16
unfolding sent_ip_csum
sent_ip_csum-lt p c h = ground (arith, ip_flip_lem c h)

pub sent_l4_csum-lt : (p : Packet) (c : ℕ) → c < 2 ^ 16 → sent_l4_csum p c < 2 ^ 16
unfolding sent_l4_csum
sent_l4_csum-lt p c h =
    ground (arith, l4_flip_lem c h, l4_flip_lem 0 (omega arith), l4_flip_lem 0xFFFF (omega arith))
