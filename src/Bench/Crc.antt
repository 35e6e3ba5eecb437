-- ===== src/Bench/Crc.antt =====
-- The CRC-32 of the benches: txpath_bench.py (crc_step, crc_raw) and mac_sys_b.py (crc32_byte).
pub mod Linear
pub mod Residue
use emac_zero.Base.{List, [], bit_xor, if◌then◌else◌, suc, zero, ℕ, ◌%◌, ◌/◌, ◌==◌, ◌^◌, ◌∷◌}
use emac_zero.Base.Py.{Bytes}

abbrev pub poly : ℕ
poly = 0xEDB88320

-- (c >> 1) ^ poly if c & 1 else c >> 1
unfoldable pub crc_round : ℕ → ℕ
crc_round c = if c % 2 == 1 then bit_xor (c / 2) poly else c / 2

-- for _ in range(n): …
unfoldable pub crc_rounds : ℕ → ℕ → ℕ
crc_rounds zero c = c
crc_rounds (suc n) c = crc_rounds n (crc_round c)

unfoldable pub crc_step : ℕ → ℕ → ℕ
crc_step c b = crc_rounds 8 (bit_xor c (b % 2 ^ 8)) % 2 ^ 32

unfoldable pub crc_raw : Bytes → ℕ → ℕ
crc_raw [] c = c
crc_raw (b ∷ bs) c = crc_raw bs (crc_step c b)

unfoldable pub crc32_byte : ℕ → ℕ → ℕ
crc32_byte crc b = crc_rounds 8 (bit_xor crc b)
