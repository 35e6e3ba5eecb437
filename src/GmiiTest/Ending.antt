-- ===== src/GmiiTest/Ending.antt =====
-- That `main` comes to an end: the loop over the progress reads takes at most one turn a millisecond.
use emac_zero.Base.{
  true, false, Bool, List, arith, ◌%◌, ◌^◌, if◌then◌else◌, suc, zero, ℕ, ◌+◌, ◌-◌, ◌<◌, ◌≢◌, ◌≡◌,
  ◌≤◌, [], ◌∷◌, none, some,
}
use emac_zero.Base.Py.{
  PyError, Result, assertion_error, attribute_error, err, index_error, key_error, ok, os_error,
  overflow_error, runtime_error, system_exit, value_error, wrong_build,
}
use emac_zero.Base.Text.{Line}
use emac_zero.GmiiTest.{
  Cli, CliWorld, Command, Outcome, after_run, by_outcome, decode_gmii, eio_read, failed, fcapz,
  fcapz_loop, give, gmii_ready, last_hex, main_gmii, printed, read_gmii, run_gmii,
}
use emac_zero.GmiiTest.Steps.{Ended, EndsAfter, goes_on-Ends, run_gmii-Ends}
use emac_zero.SerialMonitor.Hex.{parse_hex}

-- An exception other than the end of the fuel.
OfCode : PyError → Type 0
OfCode runtime_error = ⊥
OfCode e = Unit

Ended-holds : {A : Type 0} (r : Result A) → Ended OfCode r → r ≢ err runtime_error
unfolding Ended OfCode
Ended-holds (ok a) e h = absurd (differ h)
  where
    differ : {A : Type 0} {a : A} → ok a ≡ err runtime_error → ⊥
    differ x = cc
Ended-holds (err x) e h = by_error x e h
  where
    by_error :
        {A : Type 0} (x : PyError) → OfCode x → ◌≡◌ {A = Result A} (err x) (err runtime_error) → ⊥
    by_error overflow_error e h = cc
    by_error value_error e h = cc
    by_error index_error e h = cc
    by_error key_error e h = cc
    by_error attribute_error e h = cc
    by_error assertion_error e h = cc
    by_error runtime_error e h = e
    by_error os_error e h = cc
    by_error system_exit e h = cc
    by_error wrong_build e h = cc

module _ (h : Cli) where
  by_outcome-Ends :
      (c : Command) (w : CliWorld) (again : Result (List Line) × CliWorld) (o : Outcome)
      → EndsAfter OfCode w again
      → EndsAfter OfCode w (by_outcome h c w again o)
  unfolding by_outcome Ended
  by_outcome-Ends c w again (printed lines) r = (tt, omega arith)
  by_outcome-Ends c w again failed r = r

  fcapz_loop-Ends :
      (tries : ℕ) (c : Command) (w : CliWorld) → EndsAfter OfCode w (fcapz_loop h tries c w)
  unfolding fcapz_loop Ended OfCode
  fcapz_loop-Ends zero c w = (tt, omega arith)
  fcapz_loop-Ends (suc tries) c w =
      let w1 = record (after_run h c w) { now = (after_run h c w).now + 2000 } in
      let (e, l) = fcapz_loop-Ends tries c w1 in
      by_outcome-Ends c w (fcapz_loop h tries c w1) (h.outcome w.runs c) (e, omega (arith, l))

  last_hex-Ends : (lines : List Line) → Ended OfCode (last_hex lines)
  unfolding last_hex Ended OfCode
  last_hex-Ends [] = tt
  last_hex-Ends (l ∷ []) =
      elim (parse_hex l)
        as (λ x. Ended OfCode (elim x [
          | none ↦ err value_error
          | some (minus, n) ↦ ok (if minus then (2 ^ 320 - n % 2 ^ 320) % 2 ^ 320 else n)
        ])) [ none ↦ tt | some v ↦ tt ]
  last_hex-Ends (l ∷ k ∷ lines) = last_hex-Ends (k ∷ lines)

  fcapz-Ends : (c : Command) (u w : CliWorld) → u.now ≤ w.now → EndsAfter OfCode u (fcapz h c w)
  unfolding fcapz
  fcapz-Ends c u w l = let (e, m) = fcapz_loop-Ends 5 c w in (e, omega (arith, l, m))

  read_gmii-Ends : (u w : CliWorld) → u.now ≤ w.now → EndsAfter OfCode u (read_gmii h w)
  unfolding read_gmii Ended
  read_gmii-Ends u w l =
      goes_on-Ends OfCode _ u (fcapz h eio_read w) (fcapz-Ends eio_read u w l) (λ lines w1 l1.
        goes_on-Ends OfCode (λ raw. give (ok (decode_gmii raw))) u (last_hex lines, w1)
          (last_hex-Ends lines, l1) (λ raw w2 l2. (tt, l2)))

  -- Where the progress interval is at least a millisecond, `main` ends: it returns a code, or raises
  -- an exception of the code, and its loop does not run out of fuel.
  pub main_gmii-Ends :
      (seconds interval : ℕ) (w : CliWorld)
      → 0 < interval
      → (main_gmii h seconds interval w).0 ≢ err runtime_error
  unfolding main_gmii Ended OfCode
  main_gmii-Ends seconds interval w i = Ended-holds (main_gmii h seconds interval w).0 whole.0
    where
      by_ready :
          (b : Bool) (v : CliWorld)
          → w.now ≤ v.now
          → EndsAfter OfCode w
              ((if b then run_gmii h seconds interval else give (err system_exit)) v)
      by_ready true v l =
          run_gmii-Ends OfCode h seconds interval w v (fcapz-Ends, read_gmii-Ends) i l
      by_ready false v l = (tt, l)

      whole : EndsAfter OfCode w (main_gmii h seconds interval w)
      whole =
          goes_on-Ends OfCode _ w (read_gmii h w) (read_gmii-Ends w w (omega arith))
            (λ s v l. by_ready (gmii_ready s) v l)
