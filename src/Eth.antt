-- ===== src/Eth.antt =====
-- sim/cocotb/lib/eth.py: the framing constants, the minimum-frame padding and the FCS helpers.
-- `zlib.crc32` is not part of the repository: it is the parameter `crc32`.
pub mod Fcs
use emac_zero.Base.{Bool, if◌then◌else◌, length, ltb, replicate, ℕ, ◌%◌, ◌++◌, ◌-◌, ◌==◌, ◌^◌}
use emac_zero.Base.Py.{Bytes, from_bytes_little, le_bytes4}

abbrev pub preamble_byte : ℕ
preamble_byte = 0x55

abbrev pub preamble_len : ℕ
preamble_len = 7

abbrev pub sfd : ℕ
sfd = 0xD5

abbrev pub min_frame : ℕ
min_frame = 60

abbrev pub pad_byte : ℕ
pad_byte = 0x00

abbrev pub fcs_len : ℕ
fcs_len = 4

unfoldable pub pad_payload : Bytes → Bytes
pad_payload payload =
    if ltb (length payload) min_frame
    then payload ++ replicate (min_frame - length payload) pad_byte
    else payload

unfoldable pub expected_wire_payload : Bytes → Bytes
expected_wire_payload raw = pad_payload raw

module _ (crc32 : Bytes → ℕ) where
  unfoldable pub fcs : Bytes → ℕ
  fcs payload = crc32 payload % 2 ^ 32

  -- The value lies below 2 ** 32, so `to_bytes(4, "little")` does not raise.
  unfoldable pub fcs_bytes : Bytes → Bytes
  unfolding fcs
  fcs_bytes payload = le_bytes4 (fcs payload)

  unfoldable pub fcs_ok : Bytes → Bytes → Bool
  unfolding fcs
  fcs_ok payload wire_fcs = from_bytes_little wire_fcs == fcs payload
