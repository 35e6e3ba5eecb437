-- ===== src/GmiiTest/Steps.antt =====
-- The steps of a run, each with a result that `Good` takes and at a time that is not before: what
-- holds of the single commands and reads holds of the whole run.
use emac_zero.Base.{
  Bool-cases, arith, inl, inr, ltb, ltb→lt, min, suc, zero, ℕ, ◌+◌, ◌-◌, ◌<◌, ◌≡◌, ◌≤◌,
}
use emac_zero.Base.Py.{PyError, Result, err, ok}
use emac_zero.GmiiTest.{
  Cli, CliAction, CliWorld, Command, eio_write, fcapz, goes_on_with, progress, read_gmii, run_gmii,
}

unfoldable pub Ended : (PyError → Type 0) → {A : Type 0} → Result A → Type 0
Ended Good (ok a) = Unit
Ended Good (err e) = Good e

abbrev pub EndsAfter : (PyError → Type 0) → {A : Type 0} → CliWorld → Result A × CliWorld → Type 0
EndsAfter Good w p = Ended Good p.0 × (w.now ≤ p.1.now)

pub goes_on-Ends :
    (Good : PyError → Type 0) {A B : Type 0} (f : A → CliAction B) (w : CliWorld)
    (p : Result A × CliWorld)
    → EndsAfter Good w p
    → ((a : A) (w1 : CliWorld) → w.now ≤ w1.now → EndsAfter Good w (f a w1))
    → EndsAfter Good w (goes_on_with f p)
unfolding goes_on_with Ended
goes_on-Ends Good f w (ok a, w1) (e, l) g = g a w1 l
goes_on-Ends Good f w (err x, w1) (e, l) g = (e, l)

module _ (Good : PyError → Type 0) (h : Cli) where
  -- Every command and every read ends well.
  abbrev pub AreGood : Type 0
  AreGood =
      ((c : Command) (u w : CliWorld) → u.now ≤ w.now → EndsAfter Good u (fcapz h c w))
      × ((u w : CliWorld) → u.now ≤ w.now → EndsAfter Good u (read_gmii h w))

  -- One turn takes at least a millisecond.
  turn-Ends :
      (fuel seconds interval t0 : ℕ) (u w : CliWorld)
      → AreGood
      → 0 < interval
      → w.now - t0 < seconds
      → u.now ≤ w.now
      → ((w2 : CliWorld)
          → w.now + 1 ≤ w2.now
          → EndsAfter Good w2 (progress h fuel seconds interval t0 w2))
      → EndsAfter Good u (
          goes_on_with
            (λ s. progress h fuel seconds interval t0)
            (read_gmii h (record w { now = w.now + min interval (seconds - (w.now - t0)) })))
  turn-Ends fuel seconds interval t0 u w good i b l ih =
      let w1 = record w { now = w.now + min interval (seconds - (w.now - t0)) } in
      let later : w.now + 1 ≤ w1.now = grind (arith, b, i) in
      let (ended, after) =
        goes_on-Ends Good (λ s. progress h fuel seconds interval t0) w1 (read_gmii h w1)
          (good.1 w1 w1 (omega arith))
          (λ s w2 l2.
            let (e2, a2) = ih w2 (omega (arith, later, l2)) in (e2, omega (arith, l2, a2))) in
      (ended, omega (arith, later, after, l))

  -- A turn begins before `seconds` have passed only if fewer than `seconds` turns came before it.
  progress-Ends :
      (turns fuel seconds interval t0 : ℕ) (u w : CliWorld)
      → AreGood
      → 0 < interval
      → turns + fuel ≡ seconds + 1
      → turns ≤ seconds
      → t0 + turns ≤ w.now
      → u.now ≤ w.now
      → EndsAfter Good u (progress h fuel seconds interval t0 w)
  unfolding progress Ended
  progress-Ends turns zero seconds interval t0 u w good i f t e l = absurd (omega (arith, f, t))
  progress-Ends turns (suc fuel) seconds interval t0 u w good i f t e l =
      elim (Bool-cases (ltb (w.now - t0) seconds)) [
        | inl y ↦
            let b = ltb→lt (w.now - t0) seconds y in
            rw y (
              turn-Ends fuel seconds interval t0 u w good i b l (λ w2 l2.
                progress-Ends (turns + 1) fuel seconds interval t0 w2 w2 good i (omega (arith, f))
                  (omega (arith, b, e)) (omega (arith, e, l2)) (omega arith)))
        | inr n ↦ rw n (tt, l)
      ]

  pub run_gmii-Ends :
      (seconds interval : ℕ) (u w : CliWorld)
      → AreGood
      → 0 < interval
      → u.now ≤ w.now
      → EndsAfter Good u (run_gmii h seconds interval w)
  unfolding run_gmii goes_on_with Ended
  run_gmii-Ends seconds interval u w good i l =
      goes_on-Ends Good _ u (fcapz h (eio_write 2) w) (good.0 (eio_write 2) u w l) (λ a w1 l1.
        let w1' = record w1 { now = w1.now + 200 } in
        goes_on-Ends Good _ u (fcapz h (eio_write 1) w1')
          (good.0 (eio_write 1) u w1' (omega (arith, l1)))
          (λ b w2 l2.
            goes_on-Ends Good _ u (progress h (seconds + 1) seconds interval w2.now w2)
              (progress-Ends 0 (seconds + 1) seconds interval w2.now u w2 good i (omega arith)
                (omega arith) (omega arith) l2)
              (λ c w3 l3.
                goes_on-Ends Good _ u (fcapz h (eio_write 0) w3) (good.0 (eio_write 0) u w3 l3)
                  (λ d w4 l4.
                    let w4' = record w4 { now = w4.now + 1000 } in
                    goes_on-Ends Good _ u (read_gmii h w4') (good.1 u w4' (omega (arith, l4)))
                      (λ s w5 l5. (tt, l5))))))
