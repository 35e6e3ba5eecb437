-- ===== src/Loopback/Waits.antt =====
-- The waits end for their reason, not for want of fuel.
use mathlib.Core.Path.{subst}
use emac_zero.Base.{
  Bool, Option, arith, false, if◌then◌else◌, ltb, min, none, not, refl, some, suc, true, zero, ℕ,
  ◌+◌, ◌-◌, ◌≡◌, ◌≤◌,
}
use emac_zero.Base.Py.{Result, err, ok}
use emac_zero.Loopback.Board.{Lb, read_status, show_progress, traffic_loop, wait_links, wait_loop}
use emac_zero.Loopback.Later.{Grows, IsLater, show_progress-Grows}
use emac_zero.Loopback.Passed.{IsRead, Post, Post-either, then-Post}
use emac_zero.Loopback.Status.{Status, TestName, links_up}
use emac_zero.Session.{Host, World, monotonic, read_inputs, sleep}

pub if_Post :
    {A : Type 0} (Q : A → World TestName → Type 0) (b : Bool) (w : World TestName) (m n : Lb A)
    → (b ≡ true → Post Q (m w))
    → (b ≡ false → Post Q (n w))
    → Post Q ((if b then m else n) w)
if_Post Q true w m n f g = f refl
if_Post Q false w m n f g = g refl

module _ (h : Host) where
  -- What `wait_links` says: up by a status that the board gave, or the time is over.
  abbrev pub Waited : ℕ → Option ℕ → World TestName → Type 0
  Waited deadline none w = deadline ≤ w.now
  Waited deadline (some t) w = (s : Status) × IsRead h s × (links_up s ≡ true)

  abbrev pub After : World TestName → ℕ → World TestName → Type 0
  After w t w' = (t ≡ w.now) × (w.now ≤ w'.now)

  pub clock-Post : (w : World TestName) → Post (After w) (monotonic h w)
  clock-Post w = (refl, omega arith)

  pub sleep-Post : (ms : ℕ) (w : World TestName) → Post (λ u w'. w.now + ms ≤ w'.now) (sleep h ms w)
  sleep-Post ms w = omega arith

  status-Post :
      (w : World TestName) → Post (λ s w'. IsRead h s × (w.now ≤ w'.now)) (read_status h w)
  unfolding read_status
  status-Post w =
      then-Post (λ raw w'. (h.inputs w.reads ≡ ok raw) × (w.now ≤ w'.now)) _ (read_inputs h) _ w
        (Post-either _ (h.inputs w.reads) _ (λ raw e. (e, omega arith)))
        (λ raw w' (e, l). ((w.reads, raw, e, refl), l))

  wait_loop-Post :
      (fuel timeout t0 : ℕ) (w : World TestName)
      → t0 ≤ w.now
      → t0 + timeout ≤ w.now + fuel
      → Post (Waited (t0 + timeout)) (wait_loop h fuel timeout t0 w)
  unfolding wait_loop
  wait_loop-Post zero timeout t0 w l m = omega arith
  wait_loop-Post (suc fuel) timeout t0 w l m =
      let Q = Waited (t0 + timeout) in
      then-Post (After w) Q (monotonic h) _ w (clock-Post w) (λ t w1 (e, l1).
        if_Post Q (not (ltb (t - t0) timeout)) w1 _ _ (λ q. ground arith)
          (λ q.
            then-Post (λ s w2. IsRead h s × (w1.now ≤ w2.now)) Q (read_status h) _ w1
              (status-Post w1)
              (λ s w2 (r, l2).
                if_Post Q (links_up s) w2 _ _
                  (λ up.
                    then-Post (After w2) Q (monotonic h) _ w2 (clock-Post w2)
                      (λ t1 w3 x. (s, r, up)))
                  (λ down.
                    then-Post (λ u w3. w2.now + 100 ≤ w3.now) Q (sleep h 100) _ w2
                      (sleep-Post 100 w2)
                      (λ u w3 l3. wait_loop-Post fuel timeout t0 w3 (omega arith) (omega arith))))))

  -- `wait_links` that returns None has waited for its whole timeout; one that returns a time saw both
  -- links up, the MAC running and its set-up done in a status that decodes a word of the board.
  pub wait_links-Waited :
      (timeout : ℕ) (w w' : World TestName) (o : Option ℕ)
      → wait_links h timeout w ≡ (ok o, w')
      → Waited (w.now + timeout) o w'
  unfolding wait_links
  wait_links-Waited timeout w w' o e = subst (Post (Waited (w.now + timeout))) e (
      then-Post (After w) (Waited (w.now + timeout)) (monotonic h) _ w (clock-Post w)
        (λ t0 w1 (q, l).
          rw (← q) (wait_loop-Post (suc timeout) timeout t0 w1 (omega arith) (omega arith))))

  pub grown :
      {A : Type 0} (m : Lb A) (w : World TestName) → Grows m → Post (λ a w'. w.now ≤ w'.now) (m w)
  grown {A} m w g = go (m w) (g.grows w)
    where
      go : (r : Result A × World TestName) → IsLater w r.1 → Post (λ a w'. w.now ≤ w'.now) r
      go (ok a, w') l = l.2
      go (err x, w') l = tt

  pub traffic_loop-Post :
      (fuel seconds progress t0 next : ℕ) (w : World TestName)
      → t0 ≤ w.now
      → t0 + seconds + 1 ≤ w.now + fuel
      → Post (λ u w'. t0 + seconds ≤ w'.now) (traffic_loop h fuel seconds progress t0 next w)
  unfolding traffic_loop
  traffic_loop-Post zero seconds progress t0 next w l m = omega arith
  traffic_loop-Post (suc fuel) seconds progress t0 next w l m =
      let Q : Unit {0} → World TestName → Type 0 = λ u w'. t0 + seconds ≤ w'.now in
      then-Post (After w) Q (monotonic h) _ w (clock-Post w) (λ t w1 (e, l1).
        if_Post Q (not (ltb (t - t0) seconds)) w1 _ _ (λ q. ground arith)
          (λ q. then-Post (After w1) Q (monotonic h) _ w1 (clock-Post w1) (λ t1 w2 (e1, l2).
            let ms = min 500 (seconds - (t1 - t0)) in
            then-Post (λ u w3. w2.now + ms ≤ w3.now) Q (sleep h ms) _ w2 (sleep-Post ms w2)
              (λ u w3 l3.
                then-Post (λ n w4. w3.now ≤ w4.now) Q (show_progress h progress t0 next) _ w3
                  (grown (show_progress h progress t0 next) w3
                    (show_progress-Grows h progress t0 next))
                  (λ n w4 l4.
                    traffic_loop-Post fuel seconds progress t0 n w4 (omega arith)
                      (ground arith))))))
