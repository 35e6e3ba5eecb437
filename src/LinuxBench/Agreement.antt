-- ===== src/LinuxBench/Agreement.antt =====
-- When two snapshots of counters agree.
use emac_zero.Base.{
  Bool, Bool-cases, List, [], ap, suc, zero, ◌⊎◌, arith, false, if◌then◌else◌, inl, inr, leb, map,
  refl, some, true, ℕ, ◌&&◌, ◌+◌, ◌-◌, ◌==◌, ◌↔◌, ◌∷◌, ◌≡◌, ◌≤◌,
}
use emac_zero.Base.Predicates.{All}
use emac_zero.Base.Py.{Result, bind_ok, ok, ok-injective, ◌>>=◌}
use emac_zero.LinuxBench.Console.{Answer, board_run}
use emac_zero.Base.Text.{Line, codes, lookup}
use emac_zero.LinuxBench.Ledger.{
  Agreement, accounting, agree, any_negative, delta_of, deltas, diff, differ, equal_ℤ, invalid,
  is_positive, judge, kernel_messages, required, ◌-ℤ◌,
}
use emac_zero.LinuxBench.Snapshot.{Snap, pos, ℤ}

both_iff : (p q : Bool) → ((if p && q then agree else differ) ≡ agree) ↔ ((p ≡ true) × (q ≡ true))
both_iff true true = (λ e. (refl, refl), λ e. refl)
both_iff true false = (λ e. cc, λ e. cc)
both_iff false q = (λ e. cc, λ e. cc)

diff_pos : (m n : ℕ) → n ≤ m → diff m n ≡ pos (m - n)
diff_pos m n h = let l : leb n m ≡ true = ground arith in rw l refl

diff_below : (m n z : ℕ) → (equal_ℤ (diff m n) (pos z) ≡ true) ↔ (m ≡ z + n)
diff_below m n z = elim (Bool-cases (leb n m)) [
  | inl l ↦ rw l (ground arith)
  | inr g ↦ rw g ((λ e. cc), λ e. absurd (ground arith))
]

verdict_iff :
    (n : Bool) (k : Result (List Line)) (v : Agreement) {P Q R K : Type 0}
    → (n ≡ false) ↔ P
    → (P → (v ≡ agree) ↔ (Q × R))
    → (P → ((out : List Line) × (k ≡ ok out)) ↔ K)
    → ((if n then ok invalid else (k >>= λ messages. ok v)) ≡ ok agree) ↔ (P × Q × R × K)
verdict_iff true k v i j m =
    (λ e. absurd (differs (ok-injective e)), λ (p, q, r, s). absurd (off (i.1 p)))
  where
    differs : invalid ≡ agree → ⊥
    differs e = cc

    off : true ≡ false → ⊥
    off e = cc
verdict_iff false k v {P} {Q} {R} {K} i j m = (
  λ e.
      let p = i.0 refl in
      let (out, e1, e2) = bind_ok k (λ messages. ok v) e in
      let (q, r) = (j p).0 (ok-injective e2) in (p, q, r, (m p).0 (out, e1)),
  λ (p, q, r, s). let (out, e1) = (m p).1 s in rw e1 (ap ok ((j p).1 (q, r))),
)

messages_iff :
    (m n : ℕ) (answer : Answer)
    → n ≤ m
    → ((out : List Line) × (kernel_messages (diff m n) answer ≡ ok out))
      ↔ ((m ≡ n) ⊎ ((out : List Line) × (board_run answer ≡ ok out)))
unfolding kernel_messages
messages_iff m n answer l = rw (diff_pos m n l) (by_lines (m - n) refl)
  where
    by_lines :
        (d : ℕ)
        → m - n ≡ d
        → ((out : List Line) × ((if is_positive (pos d) then board_run answer else ok []) ≡ ok out))
          ↔ ((m ≡ n) ⊎ ((out : List Line) × (board_run answer ≡ ok out)))
    by_lines zero e = (λ x. inl (omega (arith, l, e)), λ x. ([], refl))
    by_lines (suc d) e =
        (λ x. inr x, λ x. elim x [ inl h ↦ absurd (omega (arith, e, h)) | inr y ↦ y ])

-- The verdict on changes that are not negative.
judge_iff :
    (a0 b0 a1 b1 a2 b2 a6 b6 a7 b7 : ℕ) (x3 x4 x5 : ℤ) (xs : List ℤ)
    → b0 ≤ a0
    → b1 ≤ a1
    → b2 ≤ a2
    → b6 ≤ a6
    → b7 ≤ a7
    → (judge (diff a0 b0 ∷ diff a1 b1 ∷ diff a2 b2 ∷ x3 ∷ x4 ∷ x5 ∷ diff a6 b6 ∷ diff a7 b7 ∷ xs)
        ≡ agree)
      ↔ ((a0 + b6 ≡ a6 + b0) × (a1 + b2 + b7 ≡ a7 + a2 + b1))
unfolding judge
judge_iff a0 b0 a1 b1 a2 b2 a6 b6 a7 b7 x3 x4 x5 xs h0 h1 h2 h6 h7 =
    let p = a0 - b0 == a6 - b6 in
    let q = equal_ℤ (pos (a1 - b1) -ℤ pos (a2 - b2)) (pos (a7 - b7)) in
    let i = both_iff p q in
    let d = diff_below (a1 - b1 + 0) (0 + (a2 - b2)) (a7 - b7) in
    rw
      (
        diff_pos a0 b0 h0,
        diff_pos a1 b1 h1,
        diff_pos a2 b2 h2,
        diff_pos a6 b6 h6,
        diff_pos a7 b7 h7,
      )
      (
        (λ e. (ground (arith, (i.0 e).0), omega (arith, d.0 (i.0 e).1))),
        λ (x, y). i.1 (ground arith, d.1 (omega arith)),
      )

module _ (before after : Snap) (b a : Line → ℕ) where
  -- Both snapshots have the counter, and it is not negative in them.
  abbrev pub Has : Line → Type 0
  Has k = (lookup k before ≡ some (pos (b k))) × (lookup k after ≡ some (pos (a k)))

  abbrev change : Line → ℤ
  change k = diff (a k) (b k)

  delta_of-change : (k : Line) → Has k → delta_of before after k ≡ some (change k)
  unfolding delta_of
  delta_of-change k (p, q) =
      let e : a k + 0 ≡ a k = omega arith in
      let f : 0 + b k ≡ b k = omega arith in rw (p, q, delta_of) (rw (e, f) refl)

  deltas-change : (ks : List Line) → All Has ks → deltas before after ks ≡ some (map change ks)
  unfolding deltas
  deltas-change [] h = refl
  deltas-change (k ∷ ks) h = rw (delta_of-change k h.0, deltas-change ks h.1, deltas) refl

  no_negative : (ks : List Line) → (any_negative (map change ks) ≡ false) ↔ All (λ k. b k ≤ a k) ks
  unfolding any_negative
  no_negative [] = (λ e. tt, λ h. refl)
  no_negative (k ∷ ks) =
      let ih = no_negative ks in (λ e. ground (arith, ih), λ h. ground (arith, ih))

  -- Two snapshots that have every required counter, none of them negative, agree exactly if no counter
  -- went back, the MAC sent as many frames as the interface sent packets, the frames the MAC received
  -- less those it flagged are as many as the packets the interface received, and the board gave the
  -- kernel's messages where there are new ones.
  pub accounting-agree_iff :
      (answer : Answer)
      → All Has required
      → (accounting before after answer ≡ ok agree) ↔ (
          All (λ k. b k ≤ a k) required
          × (a (codes "hw_tx_frames") + b (codes "if_tx_packets")
              ≡ a (codes "if_tx_packets") + b (codes "hw_tx_frames"))
          × (a (codes "hw_rx_frames") + b (codes "hw_rx_errors") + b (codes "if_rx_packets")
              ≡ a (codes "if_rx_packets") + a (codes "hw_rx_errors") + b (codes "hw_rx_frames"))
          × ((a (codes "dmesg_lines") ≡ b (codes "dmesg_lines"))
              ⊎ ((out : List Line) × (board_run answer ≡ ok out))))
  unfolding accounting
  accounting-agree_iff answer h =
      rw (deltas-change required h, accounting)
        (verdict_iff (any_negative (map change required))
          (kernel_messages (change (codes "dmesg_lines")) answer) (judge (map change required))
          (no_negative required)
          (λ g.
            judge_iff _ _ _ _ _ _ _ _ _ _ _ _ _ _ g.0 g.1.0 g.1.1.0 g.1.1.1.1.1.1.0
              g.1.1.1.1.1.1.1.0)
          (λ g. messages_iff _ _ answer g.1.1.1.1.1.1.1.1.1.1.1.0))
