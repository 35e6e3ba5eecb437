-- ===== src/Blast/Order.antt =====
-- What the counters of a blast say of the order of its datagrams.
use emac_zero.Base.{
  List, [], ap, arith, length, ltb, refl, suc, true, zero, ℕ, ◌+◌, ◌<◌, ◌↔◌, ◌∙◌, ◌∷◌, ◌≡◌, ◌≤◌,
}
use emac_zero.Base.Predicates.{All}
use emac_zero.Base.Py.{Bytes}
use emac_zero.Blast.{
  Tally, count_seq, fresh_tally, receive, recv_into, report_rx, run_blast, seq_of,
}

-- The sequence numbers that the loop reads.
abbrev pub seqs_of : Bytes → List Bytes → List ℕ
seqs_of buf [] = []
seqs_of buf (d ∷ ds) = seq_of (recv_into buf d) ∷ seqs_of (recv_into buf d) ds

-- From `e` on, each number is above the one before it.
abbrev pub Rising : ℕ → List ℕ → Type 0
Rising e [] = Unit {0}
Rising e (s ∷ ss) = (e ≤ s) × Rising (s + 1) ss

abbrev pub next_of : ℕ → List ℕ → ℕ
next_of e [] = e
next_of e (s ∷ ss) = next_of (s + 1) ss

count_seq_lem :
    (t : Tally) (seq : ℕ)
    → let t' = count_seq t seq in
      (t'.n ≡ t.n)
      × (t'.buf ≡ t.buf)
      × (t'.expect ≡ seq + 1)
      × (t.ooo ≤ t'.ooo)
      × ((t'.ooo ≡ t.ooo) ↔ (t.expect ≤ seq))
      × (t'.ooo ≡ t.ooo → t'.gaps + t.expect ≡ t.gaps + seq)
unfolding count_seq
count_seq_lem t seq = ground arith

receive_lem :
    (payload : ℕ) (t : Tally) (d : Bytes)
    → let t' = receive payload t d in
      let seq = seq_of (recv_into t.buf d) in
      (t'.n ≡ t.n + 1)
      × (t'.buf ≡ recv_into t.buf d)
      × (t'.expect ≡ seq + 1)
      × (t.ooo ≤ t'.ooo)
      × ((t'.ooo ≡ t.ooo) ↔ (t.expect ≤ seq))
      × (t'.ooo ≡ t.ooo → t'.gaps + t.expect ≡ t.gaps + seq)
unfolding receive
receive_lem payload t d = count_seq_lem _ (seq_of (recv_into t.buf d))

sum_none : (x y z : ℕ) → x ≡ y → z ≡ x → z ≡ y
sum_none x y z a b = omega arith

-- The loop over datagrams that all are counted.
run_lem :
    (payload count : ℕ) (t : Tally) (ds : List Bytes)
    → t.n + length ds ≤ count
    → let r = run_blast payload count t ds in
      (r.n ≡ t.n + length ds)
      × (t.ooo ≤ r.ooo)
      × ((r.ooo ≡ t.ooo) ↔ Rising t.expect (seqs_of t.buf ds))
      × (r.ooo ≡ t.ooo → r.gaps + r.n + t.expect ≡ t.gaps + t.n + r.expect)
unfolding run_blast receive count_seq
run_lem payload count t [] h = (omega arith, omega arith, ((λ _. tt), λ _. refl), λ _. omega arith)
run_lem payload count t (d ∷ ds) h =
    let t' : Tally = receive payload t d in
    let room : ltb t.n count ≡ true = ground arith in
    let (n, b, e, o, i, g) = receive_lem payload t d in
    let (n2, o2, i2, g2) = run_lem payload count t' ds (omega arith) in
    let r : Tally = run_blast payload count t' ds in
    let i3 : (r.ooo ≡ t'.ooo)
        ↔ Rising (seq_of (recv_into t.buf d) + 1) (seqs_of (recv_into t.buf d) ds) =
      rw (b, e) at i2 in
    rw room (
      omega arith,
      omega arith,
      (
        (λ q. (i.0 (omega arith), i3.0 (omega arith))),
        λ q. sum_none t'.ooo t.ooo r.ooo (i.1 q.0) (i3.1 q.1),
      ),
      λ q.
          let one = g (omega arith) in
          let more = g2 (omega arith) in omega (arith, one, more, e, n),
    )

-- Of a blast that sends at most the count, every datagram is counted, and none is counted as out of
-- order exactly if the sequence numbers rise.
pub run_blast-Rising :
    (payload count : ℕ) (ds : List Bytes)
    → length ds ≤ count
    → ((run_blast payload count fresh_tally ds).n ≡ length ds)
      × (((run_blast payload count fresh_tally ds).ooo ≡ 0) ↔ Rising 0 (seqs_of fresh_tally.buf ds))
run_blast-Rising payload count ds h =
    let (n, o, i, g) = run_lem payload count fresh_tally ds (omega arith) in (omega arith, i)

-- Of a blast that sends at most the count, where none is out of order, what arrived and what the
-- gaps count make up all numbers up to the last one that was seen.
pub run_blast-gaps :
    (payload count : ℕ) (ds : List Bytes)
    → length ds ≤ count
    → (run_blast payload count fresh_tally ds).ooo ≡ 0
    → (run_blast payload count fresh_tally ds).n + (run_blast payload count fresh_tally ds).gaps
      ≡ (run_blast payload count fresh_tally ds).expect
run_blast-gaps payload count ds h z =
    let (n, o, i, g) = run_lem payload count fresh_tally ds (omega arith) in
    let e = g z in omega (arith, e)

abbrev pub counting : ℕ → ℕ → List ℕ
counting e zero = []
counting e (suc k) = e ∷ counting (e + 1) k

Rising-room :
    (e b : ℕ) (ss : List ℕ) → e ≤ b → Rising e ss → All (λ s. s < b) ss → e + length ss ≤ b
Rising-room e b [] h r a = omega arith
Rising-room e b (s ∷ ss) h r a =
    let room = Rising-room (s + 1) b ss (omega arith) r.1 a.1 in omega arith

Rising-counting :
    (e b : ℕ) (ss : List ℕ)
    → Rising e ss
    → All (λ s. s < b) ss
    → e + length ss ≡ b
    → ss ≡ counting e (length ss)
Rising-counting e b [] r a l = refl
Rising-counting e b (s ∷ ss) r a l =
    let room = Rising-room (s + 1) b ss (omega arith) r.1 a.1 in
    let first : s ≡ e = omega arith in
    rw first (ap (◌∷◌ e) (Rising-counting (e + 1) b ss (rw first at r.1) a.1 (omega arith)))

length-seqs_of : (buf : Bytes) (ds : List Bytes) → length (seqs_of buf ds) ≡ length ds
length-seqs_of buf [] = refl
length-seqs_of buf (d ∷ ds) = ap suc (length-seqs_of (recv_into buf d) ds)

-- A blast of at most the count, whose numbers lie below the count and which is judged PASS without
-- NIC counters, arrived whole: the numbers are 0, 1, 2 and so on up to the count, each once and in
-- order.
pub report_rx-counting :
    (payload count : ℕ) (ds : List Bytes)
    → length ds ≤ count
    → All (λ s. s < count) (seqs_of fresh_tally.buf ds)
    → report_rx count (run_blast payload count fresh_tally ds) ≡ true
    → seqs_of fresh_tally.buf ds ≡ counting 0 count
unfolding report_rx
report_rx-counting payload count ds h a pass =
    let (n, o, i, g) = run_lem payload count fresh_tally ds (omega arith) in
    let r : Tally = run_blast payload count fresh_tally ds in
    let z : r.ooo ≡ 0 = ground arith in
    let full : r.n ≡ count = ground arith in
    let l : length (seqs_of fresh_tally.buf ds) ≡ count =
      omega (arith, length-seqs_of fresh_tally.buf ds) in
    Rising-counting 0 count (seqs_of fresh_tally.buf ds) (i.0 z) a (omega arith) ∙ ap (counting 0) l
