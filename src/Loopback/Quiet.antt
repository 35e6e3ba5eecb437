-- ===== src/Loopback/Quiet.antt =====
-- What stands in the output word between the tests.
use emac_zero.Base.{
  Bool, bit_or, false, if◌then◌else◌, leb, length, ltb, min, none, not, refl, some, suc, true, zero,
  ℕ, ◌+◌, ◌-◌, ◌≡◌,
}
use emac_zero.Base.Py.{PyError, Result, err, ok}
use emac_zero.Loopback.Board.{
  Lb, and_not, clear, pulse, read_status, run_traffic, set_off, set_on, show_progress, traffic_loop,
  wait_links, wait_loop, write_word,
}
use emac_zero.Loopback.Status.{TestName, clear_bit, decode_status, links_up, run_bit, traffic_bits}
use emac_zero.Session.{Host, World, monotonic, pure, raise, read_inputs, sleep, ◌>>=◌}

-- A call that returned left this output word.
abbrev pub Ends : {A : Type 0} → ℕ → Result A × World TestName → Type 0
Ends c (ok a, w) = w.ctrl ≡ c
Ends c (err e, w) = Unit {0}

-- From the word `c`, the action leaves the word `d` if it returns.
pub record Leaves {A : Type 0} (c d : ℕ) (act : Lb A) : Type 0 where
  pub leaves : (w : World TestName) → w.ctrl ≡ c → Ends d (act w)

Ends-either : {A : Type 0} (c : ℕ) (r : Result A) (w : World TestName) → w.ctrl ≡ c → Ends c (r, w)
Ends-either c (ok a) w q = q
Ends-either c (err e) w q = tt

pub then-Leaves :
    {A B : Type 0} {c d e : ℕ} {m : Lb A} {f : A → Lb B}
    → Leaves c d m
    → ((a : A) → Leaves d e (f a))
    → Leaves c e (m >>= f)
unfolding ◌>>=◌
then-Leaves {A} {B} {c = c} {d = d} {e = e} {m = m} {f = f} h k = record {
  leaves = λ w q. go (m w) (h.leaves w q);
}
  where
    go :
        (r : Result A × World TestName)
        → Ends {A = A} d r
        → Ends {A = B} e (let (x, w') = r in elim x [ ok a ↦ f a w' | err x ↦ raise x w' ])
    go (ok a, w') l = (k a).leaves w' l
    go (err x, w') l = tt

pub same-Leaves : {A : Type 0} (c : ℕ) (a : A) → Leaves c c (pure a)
same-Leaves c a = record { leaves = λ w q. q }

pub cond-Leaves :
    {A : Type 0} {c d : ℕ} (b : Bool) {m n : Lb A}
    → Leaves c d m
    → Leaves c d n
    → Leaves c d (if b then m else n)
cond-Leaves true l r = l
cond-Leaves false l r = r

pub raise-Leaves : {A : Type 0} {c d : ℕ} (e : PyError) → Leaves {A = A} c d (raise e)
raise-Leaves e = record { leaves = λ w q. tt }

pub to-Leaves : {A : Type 0} {c d e : ℕ} {m : Lb A} → d ≡ e → Leaves c d m → Leaves c e m
to-Leaves {c = c} {m = m} q l = rw (← q) l

-- The three updates of a window of traffic leave the word `c` as it is.
abbrev pub IsKept : ℕ → ℕ → Type 0
IsKept c extra =
    (and_not c traffic_bits ≡ c)
    × (and_not (bit_or c clear_bit) clear_bit ≡ c)
    × (and_not (bit_or c (bit_or run_bit extra)) (bit_or run_bit extra) ≡ c)

module _ (h : Host) where
  write_word-Leaves : (c value : ℕ) → Leaves c value (write_word h value)
  unfolding write_word
  write_word-Leaves c value = record {
    leaves = λ w q. Ends-either value (h.accepts (length w.written)) _ refl;
  }

  read_inputs-Leaves : (c : ℕ) → Leaves c c (read_inputs h)
  read_inputs-Leaves c = record { leaves = λ w q. Ends-either c (h.inputs w.reads) _ q }

  pub sleep-Leaves : (c ms : ℕ) → Leaves c c (sleep h ms)
  sleep-Leaves c ms = record { leaves = λ w q. q }

  pub monotonic-Leaves : (c : ℕ) → Leaves c c (monotonic h)
  monotonic-Leaves c = record { leaves = λ w q. q }

  pub read_status-Leaves : (c : ℕ) → Leaves c c (read_status h)
  unfolding read_status
  read_status-Leaves c =
      then-Leaves (read_inputs-Leaves c) (λ raw. same-Leaves c (decode_status raw))

  pub set_on-Leaves : (c bits : ℕ) → Leaves c (bit_or c bits) (set_on h bits)
  unfolding set_on
  set_on-Leaves c bits = record {
    leaves = λ w q. rw (← q) ((write_word-Leaves w.ctrl (bit_or w.ctrl bits)).leaves w refl);
  }

  pub set_off-Leaves : (c bits : ℕ) → Leaves c (and_not c bits) (set_off h bits)
  unfolding set_off
  set_off-Leaves c bits = record {
    leaves = λ w q. rw (← q) ((write_word-Leaves w.ctrl (and_not w.ctrl bits)).leaves w refl);
  }

  pub pulse-Leaves : (c bits ms : ℕ) → Leaves c (and_not (bit_or c bits) bits) (pulse h bits ms)
  unfolding pulse
  pulse-Leaves c bits ms =
      then-Leaves (set_on-Leaves c bits)
        (λ u. then-Leaves (sleep-Leaves _ ms) (λ v. set_off-Leaves _ bits))

  wait_loop-Leaves : (fuel c timeout t0 : ℕ) → Leaves c c (wait_loop h fuel timeout t0)
  unfolding wait_loop
  wait_loop-Leaves zero c timeout t0 = same-Leaves c none
  wait_loop-Leaves (suc fuel) c timeout t0 = then-Leaves (monotonic-Leaves c) (λ t.
      cond-Leaves (not (ltb (t - t0) timeout)) (same-Leaves c none) (
        then-Leaves (read_status-Leaves c) (λ s.
          cond-Leaves (links_up s)
            (then-Leaves (monotonic-Leaves c) (λ t1. same-Leaves c (some (t1 - t0))))
            (then-Leaves (sleep-Leaves c 100) (λ u. wait_loop-Leaves fuel c timeout t0)))))

  pub wait_links-Leaves : (c timeout : ℕ) → Leaves c c (wait_links h timeout)
  unfolding wait_links
  wait_links-Leaves c timeout =
      then-Leaves (monotonic-Leaves c) (λ t0. wait_loop-Leaves (suc timeout) c timeout t0)

  show_progress-Leaves : (c progress t0 next : ℕ) → Leaves c c (show_progress h progress t0 next)
  unfolding show_progress
  show_progress-Leaves c zero t0 next = same-Leaves c next
  show_progress-Leaves c (suc k) t0 next = then-Leaves (monotonic-Leaves c) (λ t.
      cond-Leaves (not (leb next (t - t0))) (same-Leaves c next) (
        then-Leaves (read_status-Leaves c)
          (λ s. then-Leaves (monotonic-Leaves c) (λ t1. same-Leaves c (next + suc k)))))

  traffic_loop-Leaves :
      (fuel c seconds progress t0 next : ℕ)
      → Leaves c c (traffic_loop h fuel seconds progress t0 next)
  unfolding traffic_loop
  traffic_loop-Leaves zero c seconds progress t0 next = same-Leaves c tt
  traffic_loop-Leaves (suc fuel) c seconds progress t0 next = then-Leaves (monotonic-Leaves c) (λ t.
      cond-Leaves (not (ltb (t - t0) seconds)) (same-Leaves c tt) (
        then-Leaves (monotonic-Leaves c) (λ t1.
          then-Leaves (sleep-Leaves c (min 500 (seconds - (t1 - t0)))) (λ u.
            then-Leaves (show_progress-Leaves c progress t0 next)
              (λ n. traffic_loop-Leaves fuel c seconds progress t0 n)))))

  pub run_traffic-Leaves :
      (c seconds extra progress : ℕ)
      → IsKept c extra
      → Leaves c c (run_traffic h seconds extra progress)
  unfolding run_traffic clear
  run_traffic-Leaves c seconds extra progress (off, cleared, back) =
      then-Leaves (to-Leaves off (set_off-Leaves c traffic_bits)) (λ u.
        then-Leaves (to-Leaves cleared (pulse-Leaves c clear_bit 50)) (λ u1.
          then-Leaves (set_on-Leaves c (bit_or run_bit extra)) (λ u2.
            then-Leaves (monotonic-Leaves _) (λ t0.
              then-Leaves (traffic_loop-Leaves (suc (suc seconds)) _ seconds progress t0 progress)
                (λ u3.
                  then-Leaves (to-Leaves back (set_off-Leaves _ (bit_or run_bit extra)))
                    (λ u4. then-Leaves (sleep-Leaves c 300) (λ u5. read_status-Leaves c)))))))
