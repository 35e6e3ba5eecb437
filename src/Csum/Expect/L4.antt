-- ===== src/Csum/Expect/L4.antt =====
-- The verdict of `expect` on an L4 part that `frame` filled in.
use emac_zero.Base.{Bool, arith, if◌then◌else◌, not, true, ℕ, ◌&&◌, ◌<◌, ◌==◌, ◌^◌, ◌||◌, ◌≡◌}
use emac_zero.Base.Py.{from_bytes}
use emac_zero.Csum.Frame.{sent_l4_csum}
use emac_zero.Csum.Frame.Corrupt.{l4_flip_lem}
use emac_zero.Csum.Packet.{Packet, udp}
use emac_zero.Csum.Sum.Insert.{field16}

-- What `frame` sends is judged good unless it was corrupted, but for one value of a UDP checksum
-- whose corruption is the 0 that stands for no checksum, or hides behind that 0.
unfoldable pub judged : Packet → ℕ → Bool
judged p c =
    let v = sent_l4_csum p c in
    if (p.proto == udp) && (v == 0)
    then true
    else v == (if (p.proto == udp) && (c == 0) then 0xFFFF else c)

-- What `frame` puts in is judged good unless it was corrupted, or it is a UDP checksum of 0x0101.
pub judged_lem :
    (p : Packet) (c : ℕ)
    → c < 2 ^ 16
    → judged p c ≡ (not p.bad_l4 || ((p.proto == udp) && (c == 0x0101)))
unfolding judged sent_l4_csum
judged_lem p c h = ground (arith, l4_flip_lem c h)

pub from_field16 : (v : ℕ) → v < 2 ^ 16 → from_bytes 0 (field16 v) ≡ v
from_field16 v h = omega arith
