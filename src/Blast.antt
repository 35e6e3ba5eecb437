-- ===== src/Blast.antt =====
-- fpga/zcu106/scripts/sfp_perf_test.py: what `BlastReceiver.run` counts of the datagrams of a blast,
-- and the verdict of `report_rx`. The socket is the list of datagrams that it delivers, each cut to
-- the buffer, until its timeout; times are left out.
pub mod Order
use emac_zero.Base.{
  Bool, List, [], bit_or, drop, get_or, if◌then◌else◌, length, ltb, replicate, ℕ, ◌&&◌, ◌++◌, ◌+◌,
  ◌-◌, ◌==◌, ◌∷◌,
}
use emac_zero.Base.Bits.{shl}
use emac_zero.Base.Py.{Bytes}
use emac_zero.Csum.Expect.{expect}

-- The locals of `run`.
pub record Tally : Type 0 where
  pub n : ℕ
  pub nbytes : ℕ
  pub bad_len : ℕ
  pub gaps : ℕ
  pub ooo : ℕ
  pub expect : ℕ
  pub buf : Bytes

abbrev pub fresh_tally : Tally
fresh_tally = record {
  n = 0;
  nbytes = 0;
  bad_len = 0;
  gaps = 0;
  ooo = 0;
  expect = 0;
  buf = replicate 2048 0;
}

-- recv_into(buf): the bytes past the datagram stay as they were.
unfoldable pub recv_into : Bytes → Bytes → Bytes
recv_into buf datagram = datagram ++ drop (length datagram) buf

unfoldable pub seq_of : Bytes → ℕ
seq_of buf =
    bit_or
      (bit_or (bit_or (shl (get_or buf 0 0) 24) (shl (get_or buf 1 0) 16)) (shl (get_or buf 2 0) 8))
      (get_or buf 3 0)

-- The comparison of the sequence number with the expected one.
unfoldable pub count_seq : Tally → ℕ → Tally
count_seq t seq =
    if seq == t.expect
    then record t { expect = seq + 1 }
    else if ltb t.expect seq
    then record t { gaps = t.gaps + (seq - t.expect); expect = seq + 1 }
    else record t { ooo = t.ooo + 1; expect = seq + 1 }

unfoldable pub receive : ℕ → Tally → Bytes → Tally
receive payload t datagram =
    let buf' = recv_into t.buf datagram in
    count_seq
      (record t {
        n = t.n + 1;
        nbytes = t.nbytes + length datagram;
        bad_len = t.bad_len + (if length datagram == payload then 0 else 1);
        buf = buf';
      })
      (seq_of buf')

-- The loop, which ends with the count or with the timeout.
unfoldable pub run_blast : ℕ → ℕ → Tally → List Bytes → Tally
run_blast payload count t [] = t
run_blast payload count t (d ∷ ds) =
    let rest = run_blast payload count (receive payload t d) ds in if ltb t.n count then rest else t

-- The verdict of `report_rx` without NIC counters.
unfoldable pub report_rx : ℕ → Tally → Bool
report_rx count r = (r.ooo == 0) && ((r.bad_len == 0) && (r.n == count))
