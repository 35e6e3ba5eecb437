-- ===== src/Loopback/Later.antt =====
-- The history of a session only grows, whatever an action does: the rows and the words written stay,
-- and neither the clock nor the number of reads goes back.
use mathlib.Core.List.{append_assoc}
use emac_zero.Base.{
  Bool, List, [], ap, arith, bit_or, false, if◌then◌else◌, leb, ltb, min, none, not, refl, some,
  suc, sym, true, zero, ℕ, ◌++◌, ◌+◌, ◌-◌, ◌∙◌, ◌∷◌, ◌≡◌, ◌≤◌,
}
use emac_zero.Base.Py.{PyError, Result, err, ok}
use emac_zero.Loopback.Board.{
  Lb, and_not, clear, pulse, read_status, run_traffic, set_off, set_on, show_progress, traffic_loop,
  wait_links, wait_loop, write_word,
}
use emac_zero.Loopback.Status.{TestName, clear_bit, decode_status, links_up, run_bit, traffic_bits}
use emac_zero.Session.{Host, Verdict, World, monotonic, pure, raise, read_inputs, sleep, ◌>>=◌}

abbrev pub IsLater : World TestName → World TestName → Type 0
IsLater w w' =
    ((new : List (Verdict × TestName)) × (w'.rows ≡ new ++ w.rows))
    × ((new : List ℕ) × (w'.written ≡ new ++ w.written))
    × (w.now ≤ w'.now)
    × (w.reads ≤ w'.reads)

IsLater-self : (w : World TestName) → IsLater w w
IsLater-self w = (([], refl), ([], refl), omega arith, omega arith)

IsLater-trans : (u v w : World TestName) → IsLater u v → IsLater v w → IsLater u w
IsLater-trans u v w ((r, er), (t, et), n, k) ((r', er'), (t', et'), n', k') = (
  (r' ++ r, er' ∙ ap (◌++◌ r') er ∙ sym (append_assoc r' r u.rows)),
  (t' ++ t, et' ∙ ap (◌++◌ t') et ∙ sym (append_assoc t' t u.written)),
  omega arith,
  omega arith,
)

pub record Grows {A : Type 0} (act : Lb A) : Type 0 where
  pub grows : (w : World TestName) → IsLater w (act w).1

-- `>>=` from the outcome of its first part on
abbrev pub continue :
    {A B : Type 0} → (A → Lb B) → Result A × World TestName → Result B × World TestName
continue f (r, w) = elim r [ ok a ↦ f a w | err e ↦ raise e w ]

pub then-Grows :
    {A B : Type 0} {m : Lb A} {f : A → Lb B} → Grows m → ((a : A) → Grows (f a)) → Grows (m >>= f)
unfolding ◌>>=◌
then-Grows {A} {B} {m = m} {f = f} h k = record { grows = λ w. go w (m w) (h.grows w) }
  where
    go :
        (w : World TestName) (r : Result A × World TestName)
        → IsLater w r.1
        → IsLater w (continue f r).1
    go w (ok a, w') l = IsLater-trans w w' (f a w').1 l ((k a).grows w')
    go w (err x, w') l = l

pub same-Grows : {A : Type 0} (a : A) → Grows (pure a)
same-Grows a = record { grows = λ w. IsLater-self w }

pub raise-Grows : {A : Type 0} (e : PyError) → Grows {A = A} (raise e)
raise-Grows e = record { grows = λ w. IsLater-self w }

pub cond-Grows :
    {A : Type 0} (b : Bool) {m n : Lb A} → Grows m → Grows n → Grows (if b then m else n)
cond-Grows true l r = l
cond-Grows false l r = r

module _ (h : Host) where
  pub sleep-Grows : (ms : ℕ) → Grows (sleep h ms)
  sleep-Grows ms = record { grows = λ w. (([], refl), ([], refl), omega arith, omega arith) }

  pub monotonic-Grows : Grows (monotonic h)
  monotonic-Grows = record { grows = λ w. (([], refl), ([], refl), omega arith, omega arith) }

  read_inputs-Grows : Grows (read_inputs h)
  read_inputs-Grows = record { grows = λ w. (([], refl), ([], refl), omega arith, omega arith) }

  pub read_status-Grows : Grows (read_status h)
  unfolding read_status
  read_status-Grows = then-Grows read_inputs-Grows (λ raw. same-Grows (decode_status raw))

  pub write_word-Grows : (v : ℕ) → Grows (write_word h v)
  unfolding write_word
  write_word-Grows v = record {
    grows = λ w. (([], refl), (v ∷ [], refl), omega arith, omega arith);
  }

  pub set_on-Grows : (bits : ℕ) → Grows (set_on h bits)
  unfolding set_on
  set_on-Grows bits = record { grows = λ w. (write_word-Grows (bit_or w.ctrl bits)).grows w }

  pub set_off-Grows : (bits : ℕ) → Grows (set_off h bits)
  unfolding set_off
  set_off-Grows bits = record { grows = λ w. (write_word-Grows (and_not w.ctrl bits)).grows w }

  pub pulse-Grows : (bits ms : ℕ) → Grows (pulse h bits ms)
  unfolding pulse
  pulse-Grows bits ms =
      then-Grows (set_on-Grows bits) (λ u. then-Grows (sleep-Grows ms) (λ u'. set_off-Grows bits))

  wait_loop-Grows : (fuel timeout t0 : ℕ) → Grows (wait_loop h fuel timeout t0)
  unfolding wait_loop
  wait_loop-Grows zero timeout t0 = same-Grows none
  wait_loop-Grows (suc fuel) timeout t0 = then-Grows monotonic-Grows (λ t.
      cond-Grows (not (ltb (t - t0) timeout)) (same-Grows none) (
        then-Grows read_status-Grows (λ s.
          cond-Grows (links_up s) (then-Grows monotonic-Grows (λ t1. same-Grows (some (t1 - t0))))
            (then-Grows (sleep-Grows 100) (λ u. wait_loop-Grows fuel timeout t0)))))

  pub wait_links-Grows : (timeout : ℕ) → Grows (wait_links h timeout)
  unfolding wait_links
  wait_links-Grows timeout =
      then-Grows monotonic-Grows (λ t0. wait_loop-Grows (suc timeout) timeout t0)

  pub show_progress-Grows : (progress t0 next : ℕ) → Grows (show_progress h progress t0 next)
  unfolding show_progress
  show_progress-Grows zero t0 next = same-Grows next
  show_progress-Grows (suc k) t0 next = then-Grows monotonic-Grows (λ t.
      cond-Grows (not (leb next (t - t0))) (same-Grows next) (
        then-Grows read_status-Grows
          (λ s. then-Grows monotonic-Grows (λ t1. same-Grows (next + suc k)))))

  pub traffic_loop-Grows :
      (fuel seconds progress t0 next : ℕ) → Grows (traffic_loop h fuel seconds progress t0 next)
  unfolding traffic_loop
  traffic_loop-Grows zero seconds progress t0 next = same-Grows tt
  traffic_loop-Grows (suc fuel) seconds progress t0 next = then-Grows monotonic-Grows (λ t.
      cond-Grows (not (ltb (t - t0) seconds)) (same-Grows tt) (
        then-Grows monotonic-Grows (λ t1.
          then-Grows (sleep-Grows (min 500 (seconds - (t1 - t0)))) (λ u.
            then-Grows (show_progress-Grows progress t0 next)
              (λ n. traffic_loop-Grows fuel seconds progress t0 n)))))

  pub run_traffic-Grows :
      (seconds extra progress : ℕ) → Grows (run_traffic h seconds extra progress)
  unfolding run_traffic clear
  run_traffic-Grows seconds extra progress = then-Grows (set_off-Grows traffic_bits) (λ u.
      then-Grows (pulse-Grows clear_bit 50) (λ u1.
        then-Grows (set_on-Grows (bit_or run_bit extra)) (λ u2. then-Grows monotonic-Grows (λ t0.
          then-Grows (traffic_loop-Grows (suc (suc seconds)) seconds progress t0 progress) (λ u3.
            then-Grows (set_off-Grows (bit_or run_bit extra))
              (λ u4. then-Grows (sleep-Grows 300) (λ u5. read_status-Grows)))))))
