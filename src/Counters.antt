-- ===== src/Counters.antt =====
-- fpga/zcu106/scripts/sfp_counters.py: the decoding of the EIO word, the reads that must agree, and
-- the repetition of a session. The fcapz host library is a parameter: what each of its calls
-- gives or raises.
pub mod Reads
pub mod Retries
pub mod Sessions
pub mod Refusals
use emac_zero.Base.{Bool, Option, false, if◌then◌else◌, none, some, suc, true, zero, ℕ, ◌+◌, ◌==◌}
use emac_zero.Base.Bits.{low_bits, shr}
use emac_zero.Base.Py.{
  PyError, Result, assertion_error, attribute_error, err, index_error, key_error, ok, os_error,
  overflow_error, runtime_error, system_exit, value_error, wrong_build,
}

-- EIO_FIELDS
pub record Fields : Type 0 where
  pub pcs_status : ℕ
  pub link_downs : ℕ
  pub sync_losses : ℕ
  pub rudi_invalid_events : ℕ
  pub disperr_cycles : ℕ
  pub notintable_cycles : ℕ
  pub rx_er_events : ℕ
  pub blast_frames : ℕ
  pub layout : ℕ
  pub marker : ℕ

-- (raw >> lsb) & ((1 << w) - 1)
unfoldable pub bit_field : ℕ → ℕ → ℕ → ℕ
bit_field raw lsb w = low_bits (shr raw lsb) w

unfoldable pub decode_fields : ℕ → Fields
decode_fields raw = record {
  pcs_status = bit_field raw 0 16;
  link_downs = bit_field raw 16 32;
  sync_losses = bit_field raw 48 32;
  rudi_invalid_events = bit_field raw 80 32;
  disperr_cycles = bit_field raw 112 32;
  notintable_cycles = bit_field raw 144 32;
  rx_er_events = bit_field raw 176 32;
  blast_frames = bit_field raw 208 32;
  layout = bit_field raw 240 4;
  marker = bit_field raw 244 12;
}

-- raw == prev, where `prev` starts as None.
unfoldable pub is_prev : Option ℕ → ℕ → Bool
is_prev none raw = false
is_prev (some p) raw = raw == p

-- The loop of `read_eio`, from its `i`-th read on; a read can raise.
unfoldable pub read_loop : (ℕ → Result ℕ) → ℕ → ℕ → Option ℕ → Result Fields
unfolding is_prev
read_loop reads zero i prev = err runtime_error
read_loop reads (suc rounds) i prev = elim (reads i) [
  | err e ↦ err e
  | ok raw ↦ elim (is_prev prev raw) [
    | true ↦ ok (decode_fields raw)
    | false ↦ read_loop reads rounds (i + 1) (some raw)
  ]
]

unfoldable pub read_eio : (ℕ → Result ℕ) → Result Fields
read_eio reads = read_loop reads 10 0 none

-- except (RuntimeError, OSError)
unfoldable pub retryable : PyError → Bool
retryable runtime_error = true
retryable os_error = true
retryable overflow_error = false
retryable value_error = false
retryable index_error = false
retryable key_error = false
retryable attribute_error = false
retryable assertion_error = false
retryable system_exit = false
retryable wrong_build = false

-- The loop of `retry` from attempt `k` on, with `left` more attempts after it.
unfoldable pub retry_loop : {A : Type 0} → (ℕ → Result A) → ℕ → ℕ → Result A
retry_loop session zero k = session k
retry_loop session (suc left) k =
    let rest = retry_loop session left (k + 1) in
    elim (session k) [ ok a ↦ ok a | err e ↦ if retryable e then rest else err e ]

-- `retry` with tries=3
unfoldable pub retry : {A : Type 0} → (ℕ → Result A) → Result A
retry session = retry_loop session 2 0
