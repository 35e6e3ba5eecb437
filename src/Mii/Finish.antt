-- ===== src/Mii/Finish.antt =====
-- The monitor's `_finish` on the bytes of a whole frame.
use emac_zero.Base.{
  ==_iff, Bool, List, [], ap₂, arith, bit_or, bit_xor, drop, drop-append, false, if◌then◌else◌,
  length, length-append, ltb, refl, replicate, take, take-append, true, ℕ, ◌%◌, ◌++◌, ◌+◌, ◌-◌, ◌/◌,
  ◌==◌, ◌∷◌, ◌≡◌,
}
use emac_zero.Base.Bits.{all_below, all_below_sound, shl}
use emac_zero.Base.Predicates.{IsBytes}
use emac_zero.Base.Py.{Bytes}
use emac_zero.Eth.{fcs, fcs_bytes, fcs_ok, preamble_byte, preamble_len, sfd}
use emac_zero.Eth.Fcs.{fcs-lt}
use emac_zero.Gmii.{flip_first}
use emac_zero.Mii.{MiiMonitor, fcs_mismatch, finish, pair_up, take_frame}

-- A frame on the wire: preamble, start delimiter, payload and four FCS bytes.
abbrev pub framed : Bytes → Bytes → Bytes
framed payload f = replicate preamble_len preamble_byte ++ (sfd ∷ (payload ++ f))

abbrev pub nibbles_of : Bytes → List ℕ
nibbles_of [] = []
nibbles_of (b ∷ bs) = b % 16 ∷ b / 16 ∷ nibbles_of bs

pub length-nibbles_of : (bs : Bytes) → length (nibbles_of bs) % 2 ≡ 0
length-nibbles_of [] = refl
length-nibbles_of (b ∷ bs) = omega (arith, length-nibbles_of bs)

abbrev is_pair : ℕ → Bool
is_pair b = bit_or (b % 16) (shl (b / 16) 4) == b

pair_table : all_below 256 is_pair ≡ true
unfolding all_below
pair_table = refl

pub pair_up-nibbles_of : (bs : Bytes) → IsBytes bs → pair_up (nibbles_of bs) ≡ bs
unfolding pair_up
pair_up-nibbles_of [] h = refl
pair_up-nibbles_of (b ∷ bs) h =
    let e : bit_or (b % 16) (shl (b / 16) 4) ≡ b =
      (==_iff _ _).0 (all_below_sound 256 is_pair b pair_table h.0) in
    ap₂ ◌∷◌ e (pair_up-nibbles_of bs h.1)

module _ (crc32 : Bytes → ℕ) where
  pub take_frame-framed :
      (m : MiiMonitor) (payload f : Bytes)
      → length f ≡ 4
      → take_frame crc32 m (framed payload f) ≡ (
          if fcs_ok crc32 payload f
          then record m { payloads = m.payloads ++ payload ∷ [] }
          else record {
            payloads = m.payloads ++ payload ∷ [];
            fcs_errors = m.fcs_errors + 1;
            framing_errors = m.framing_errors ++ fcs_mismatch (length payload) ∷ [];
          })
  unfolding take_frame
  take_frame-framed m payload f h =
      let l : length (payload ++ f) - 4 ≡ length payload = omega (arith, length-append payload f) in
      let t : take (length payload) (payload ++ f) ≡ payload =
        take-append (length payload) payload f refl in
      let d : drop (length payload) (payload ++ f) ≡ f =
        drop-append (length payload) payload f refl in
      let r : ltb (length (framed payload f)) 12 ≡ false =
        ground (arith, length-append payload f) in
      rw (r, l, t, d) refl

  -- What the monitor does with the nibbles of a frame.
  pub finish-framed :
      (m : MiiMonitor) (payload f : Bytes)
      → length f ≡ 4
      → IsBytes (framed payload f)
      → finish crc32 m (nibbles_of (framed payload f)) ≡ take_frame crc32 m (framed payload f)
  unfolding finish
  finish-framed m payload f h b =
      let e : (length (nibbles_of (framed payload f)) % 2 == 1) ≡ false =
        ground (arith, length-nibbles_of (framed payload f)) in
      rw (e, pair_up-nibbles_of (framed payload f) b) refl

abbrev flips : ℕ → Bool
flips b = bit_xor b 0xFF == 255 - b

flip_table : all_below 256 flips ≡ true
unfolding all_below
flip_table = refl

module _ (crc32 : Bytes → ℕ) where
  -- The driver's corruption of the FCS is always found.
  pub fcs_ok-flip_first :
      (payload : Bytes) → fcs_ok crc32 payload (flip_first (fcs_bytes crc32 payload)) ≡ false
  unfolding fcs_ok fcs_bytes flip_first
  fcs_ok-flip_first payload =
      let v : ℕ = fcs crc32 payload in
      let x : bit_xor (v % 256) 0xFF ≡ 255 - v % 256 =
        (==_iff _ _).0 (all_below_sound 256 flips (v % 256) flip_table (omega arith)) in
      ground (arith, x, fcs-lt crc32 payload)

  pub flip_first-IsBytes : (payload : Bytes) → IsBytes (flip_first (fcs_bytes crc32 payload))
  unfolding fcs_bytes flip_first
  flip_first-IsBytes payload =
      let v : ℕ = fcs crc32 payload in
      let x : bit_xor (v % 256) 0xFF ≡ 255 - v % 256 =
        (==_iff _ _).0 (all_below_sound 256 flips (v % 256) flip_table (omega arith)) in
      omega (arith, x, fcs-lt crc32 payload)
