-- ===== src/Loopback/Window.antt =====
-- A window of traffic: what it writes and how long RUN is on.
use mathlib.Core.Path.{subst}
use emac_zero.Base.{ap, arith, bit_or, leb, ltb, min, not, refl, suc, zero, ℕ, ◌+◌, ◌-◌, ◌≡◌, ◌≤◌}
use emac_zero.Base.Py.{PyError, Result, err, ok}
use emac_zero.Loopback.Board.{
  Lb, clear, read_status, run_traffic, set_off, set_on, show_progress, traffic_loop,
}
use emac_zero.Loopback.Later.{continue}
use emac_zero.Loopback.Passed.{Post, Post-either, then-Post}
use emac_zero.Loopback.Status.{Status, TestName, run_bit, traffic_bits}
use emac_zero.Loopback.Waits.{if_Post, traffic_loop-Post}
use emac_zero.Session.{Host, World, monotonic, passes, read_inputs, sleep, ◌>>=◌}

-- A block that returned: its first call did, and so did what came after it.
ok_then :
    {A B : Type 0} (m : Lb A) (f : A → Lb B) (w : World TestName) {b : B} {w2 : World TestName}
    → (m >>= f) w ≡ (ok b, w2)
    → (a : A) × (w1 : World TestName) × (m w ≡ (ok a, w1)) × (f a w1 ≡ (ok b, w2))
unfolding ◌>>=◌
ok_then {A} {B} m f w {b} {w2} e = by_result (m w) refl e
  where
    differ : {A : Type 0} {a : A} {x : PyError} → err x ≡ ok a → ⊥
    differ h = cc

    by_result :
        (r : Result A × World TestName)
        → m w ≡ r
        → continue f r ≡ (ok b, w2)
        → (a : A) × (w1 : World TestName) × (m w ≡ (ok a, w1)) × (f a w1 ≡ (ok b, w2))
    by_result (ok a, w1) q h = (a, w1, q, h)
    by_result (err x, w1) q h = absurd (differ (ap (λ p. p.0) h))

-- The words written and the output word are as they were.
abbrev pub IsSilent : World TestName → World TestName → Type 0
IsSilent w w' = (w'.written ≡ w.written) × (w'.ctrl ≡ w.ctrl)

module _ (h : Host) where
  status-IsSilent :
      (u w : World TestName) → IsSilent u w → Post (λ s w'. IsSilent u w') (read_status h w)
  unfolding read_status
  status-IsSilent u w k =
      then-Post (λ raw w'. IsSilent u w') _ (read_inputs h) _ w
        (Post-either _ (h.inputs w.reads) _ (λ raw e. k)) (λ raw w' k'. k')

  progress-IsSilent :
      (progress t0 next : ℕ) (u w : World TestName)
      → IsSilent u w
      → Post (λ n w'. IsSilent u w') (show_progress h progress t0 next w)
  unfolding show_progress
  progress-IsSilent zero t0 next u w k = k
  progress-IsSilent (suc p) t0 next u w k =
      let Q : ℕ → World TestName → Type 0 = λ n w'. IsSilent u w' in
      then-Post (λ t w'. IsSilent u w') Q (monotonic h) _ w k
        (λ t w1 k1.
          if_Post Q (not (leb next (t - t0))) w1 _ _ (λ q. k1)
            (λ q.
              then-Post (λ s w'. IsSilent u w') Q (read_status h) _ w1 (status-IsSilent u w1 k1)
                (λ s w2 k2.
                  then-Post (λ t w'. IsSilent u w') Q (monotonic h) _ w2 k2 (λ t1 w3 k3. k3))))

  traffic_loop-IsSilent :
      (fuel seconds progress t0 next : ℕ) (u w : World TestName)
      → IsSilent u w
      → Post (λ x w'. IsSilent u w') (traffic_loop h fuel seconds progress t0 next w)
  unfolding traffic_loop
  traffic_loop-IsSilent zero seconds progress t0 next u w k = k
  traffic_loop-IsSilent (suc fuel) seconds progress t0 next u w k =
      let Q : Unit {0} → World TestName → Type 0 = λ x w'. IsSilent u w' in
      then-Post (λ t w'. IsSilent u w') Q (monotonic h) _ w k
        (λ t w1 k1.
          if_Post Q (not (ltb (t - t0) seconds)) w1 _ _ (λ q. k1)
            (λ q.
              then-Post (λ t w'. IsSilent u w') Q (monotonic h) _ w1 k1
                (λ t1 w2 k2.
                  then-Post (λ x w'. IsSilent u w') Q (sleep h (min 500 (seconds - (t1 - t0)))) _ w2
                    k2
                    (λ x w3 k3.
                      then-Post (λ n w'. IsSilent u w') Q (show_progress h progress t0 next) _ w3
                        (progress-IsSilent progress t0 next u w3 k3)
                        (λ n w4 k4. traffic_loop-IsSilent fuel seconds progress t0 n u w4 k4)))))

  clock_then :
      {B : Type 0} (f : ℕ → Lb B) (w : World TestName) {r : Result B × World TestName}
      → (monotonic h >>= f) w ≡ r
      → f w.now (passes h w 0) ≡ r
  unfolding ◌>>=◌
  clock_then f w e = e

  sleep_then :
      {B : Type 0} (ms : ℕ) (f : Unit {0} → Lb B) (w : World TestName)
      {r : Result B × World TestName}
      → (sleep h ms >>= f) w ≡ r
      → f tt (passes h w ms) ≡ r
  unfolding ◌>>=◌
  sleep_then ms f w e = e

  -- A window of traffic that returns a status goes through six states: the old bits are off, the
  -- counters are cleared, RUN and the extra bits are on, the traffic has run, they are off, and the
  -- frames on their way have come in. From the third state to the fourth at least `seconds` pass and no
  -- word is written, so that RUN stays on; from the fifth to the sixth at least 300 ms
  -- pass and no word is written; and the status is read in the sixth.
  pub run_traffic-Lasts :
      (seconds extra progress : ℕ) (w w' : World TestName) (s : Status)
      → run_traffic h seconds extra progress w ≡ (ok s, w')
      → (first : World TestName) × (cleared : World TestName) × (on : World TestName) × (end : World
          TestName)
        × (off : World TestName) × (drained : World TestName) × (set_off h traffic_bits w
            ≡ (ok tt, first))
        × (clear h first ≡ (ok tt, cleared))
        × (set_on h (bit_or run_bit extra) cleared ≡ (ok tt, on))
        × (on.now + seconds ≤ end.now)
        × IsSilent on end
        × (set_off h (bit_or run_bit extra) end ≡ (ok tt, off))
        × (off.now + 300 ≤ drained.now)
        × IsSilent off drained
        × (read_status h drained ≡ (ok s, w'))
  unfolding run_traffic
  run_traffic-Lasts seconds extra progress w w' s e =
      let (u1, first, r1, e1) = ok_then (set_off h traffic_bits) _ w e in
      let (u2, cleared, r2, e2) = ok_then (clear h) _ first e1 in
      let (u3, on, r3, e3) = ok_then (set_on h (bit_or run_bit extra)) _ cleared e2 in
      let started = passes h on 0 in
      let (u5, end, r5, e5) =
        ok_then (traffic_loop h (suc (suc seconds)) seconds progress on.now progress) _ started
          (clock_then _ on e3) in
      let (u6, off, r6, e6) = ok_then (set_off h (bit_or run_bit extra)) _ end e5 in
      let lasted : on.now + seconds ≤ end.now = subst (Post (λ x v. on.now + seconds ≤ v.now)) r5 (
        traffic_loop-Post h (suc (suc seconds)) seconds progress on.now progress started
          (omega arith) (omega arith)) in
      let silent : IsSilent on end = subst (Post (λ x v. IsSilent on v)) r5 (
        traffic_loop-IsSilent (suc (suc seconds)) seconds progress on.now progress on started
          (refl, refl)) in
      (
        first,
        cleared,
        on,
        end,
        off,
        passes h off 300,
        r1,
        r2,
        r3,
        lasted,
        silent,
        r6,
        omega arith,
        (refl, refl),
        sleep_then 300 _ off e6,
      )
