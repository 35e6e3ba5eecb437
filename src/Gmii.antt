-- ===== src/Gmii.antt =====
-- sim/cocotb/lib/gmii_rx_driver.py: the beats that the receive driver puts on the GMII inputs.
use emac_zero.Base.{
  Bool, List, Option, [], bit_xor, false, if◌then◌else◌, length, none, replicate, some, true, ℕ,
  ◌++◌, ◌+◌, ◌/◌, ◌==◌, ◌∷◌,
}
use emac_zero.Base.Py.{Bytes}
use emac_zero.Eth.{fcs_bytes, preamble_byte, sfd}

-- One clock cycle of gmii_rxd, gmii_rx_dv and gmii_rx_er.
pub record Beat : Type 0 where
  pub rxd : ℕ
  pub rx_dv : Bool
  pub rx_er : Bool

abbrev pub idle_beat : Beat
idle_beat = record { rxd = 0; rx_dv = false; rx_er = false }

-- `idle(cycles)`
unfoldable pub idle : ℕ → List Beat
idle cycles = replicate cycles idle_beat

-- What the caller of `send_frame` may ask for; `none` is er_wire_idx=None.
pub record SendOptions : Type 0 where
  pub corrupt_fcs : Bool
  pub align_err : Bool
  pub er_wire_idx : Option ℕ
  pub preamble_len : ℕ
  pub lead : Bytes

-- f[0] ^= 0xFF
unfoldable pub flip_first : Bytes → Bytes
flip_first [] = []
flip_first (b ∷ bs) = bit_xor b 0xFF ∷ bs

-- The index of the byte that rx_er goes with; `none` is -1, which no byte has.
unfoldable pub er_index : SendOptions → Bytes → Option ℕ
er_index opts payload = elim opts.er_wire_idx [
  | some i ↦ some i
  | none ↦
      if opts.align_err
      then some (length opts.lead + opts.preamble_len + 1 + length payload / 2)
      else none
]

-- The loop over `enumerate(wire)`, from index `i`.
unfoldable pub beats : Option ℕ → ℕ → Bytes → List Beat
beats er_idx i [] = []
beats er_idx i (b ∷ bs) =
    record { rxd = b; rx_dv = true; rx_er = elim er_idx [ none ↦ false | some k ↦ i == k ] }
    ∷ beats er_idx (i + 1) bs

module _ (crc32 : Bytes → ℕ) where
  unfoldable pub wire_frame : SendOptions → Bytes → Bytes
  unfolding flip_first
  wire_frame opts payload =
      let f = fcs_bytes crc32 payload in
      opts.lead
      ++ (replicate opts.preamble_len preamble_byte
          ++ (sfd ∷ (payload ++ (if opts.corrupt_fcs then flip_first f else f))))

  unfoldable pub send_frame : SendOptions → Bytes → List Beat
  unfolding wire_frame er_index beats
  send_frame opts payload =
      beats (er_index opts payload) 0 (wire_frame opts payload) ++ idle_beat ∷ []
