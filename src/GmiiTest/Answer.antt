-- ===== src/GmiiTest/Answer.antt =====
-- A run of `main` on a board whose commands succeed.
use emac_zero.Base.{List, arith, refl, true, ℕ, ◌<◌, ◌∷◌, ◌≡◌, ◌≤◌, ◌↔◌}
use emac_zero.Base.Predicates.{All}
use emac_zero.Base.Py.{PyError, Result, err, ok}
use emac_zero.Base.Text.{Line}
use emac_zero.GmiiTest.{
  Cli, CliWorld, Command, GmiiStatus, after_run, by_outcome, decode_gmii, eio_read, eio_write,
  fcapz, fcapz_loop, gmii_checks, gmii_ready, goes_on_with, last_hex, main_gmii, noted, printed,
  read_gmii, run_gmii,
}
use emac_zero.GmiiTest.Course.{main_gmii-Returns}
use emac_zero.GmiiTest.Steps.{Ended, EndsAfter, run_gmii-Ends}

-- No exception is raised.
abbrev None : PyError → Type 0
None e = ⊥

returned :
    {A : Type 0} (p : Result A × CliWorld)
    → Ended None p.0
    → (a : A) × (w : CliWorld) × (p ≡ (ok a, w))
unfolding Ended
returned (ok a, w) e = (a, w, refl)
returned (err x, w) e = absurd e

module _ (h : Cli)
    (reads : (n : ℕ)
      → (lines : List Line) × (raw : ℕ) × (h.outcome n eio_read ≡ printed lines)
        × (last_hex lines ≡ ok raw)
        × (gmii_ready (decode_gmii raw) ≡ true))
    (writes : (n v : ℕ) → (lines : List Line) × (h.outcome n (eio_write v) ≡ printed lines)) where
  fcapz-printed :
      (c : Command) (w : CliWorld) (lines : List Line)
      → h.outcome w.runs c ≡ printed lines
      → fcapz h c w ≡ (ok lines, record (after_run h c w) { written = noted c w.written })
  unfolding fcapz fcapz_loop by_outcome
  fcapz-printed c w lines e = rw e refl

  read_gmii-printed :
      (w : CliWorld)
      → (s : GmiiStatus) × (w1 : CliWorld) × (read_gmii h w ≡ (ok s, w1))
        × (gmii_ready s ≡ true)
        × (w.now ≤ w1.now)
  unfolding read_gmii goes_on_with noted
  read_gmii-printed w =
      let (lines, raw, e, x, y) = reads w.runs in
      (
        decode_gmii raw,
        after_run h eio_read w,
        rw (fcapz-printed eio_read w lines e) (rw x refl),
        y,
        omega arith,
      )

  fcapz-Ends : (c : Command) (u w : CliWorld) → u.now ≤ w.now → EndsAfter None u (fcapz h c w)
  unfolding Ended
  fcapz-Ends eio_read u w l =
      let (lines, raw, e, x, y) = reads w.runs in
      rw (fcapz-printed eio_read w lines e) (tt, omega (arith, l))
  fcapz-Ends (eio_write v) u w l =
      let (lines, e) = writes w.runs v in
      rw (fcapz-printed (eio_write v) w lines e) (tt, omega (arith, l))

  read_gmii-Ends : (u w : CliWorld) → u.now ≤ w.now → EndsAfter None u (read_gmii h w)
  unfolding Ended
  read_gmii-Ends u w l =
      let (s, w1, e, y, m) = read_gmii-printed w in rw e (tt, omega (arith, l, m))

  main_gmii-answered :
      (seconds interval : ℕ) (w : CliWorld)
      → 0 < interval
      → (exit_code : ℕ) × (w2 : CliWorld) × (main_gmii h seconds interval w ≡ (ok exit_code, w2))
  unfolding main_gmii goes_on_with
  main_gmii-answered seconds interval w i =
      let (s, w1, e, y, m) = read_gmii-printed w in
      rw e (
        rw y (
          returned (run_gmii h seconds interval w1)
            (run_gmii-Ends None h seconds interval w w1 (fcapz-Ends, read_gmii-Ends) i m).0))

  -- On a board where every command ends with 0, every read prints the status of a ready board, and the
  -- progress interval is at least a millisecond, `main` returns a code. It wrote the words 2, 1 and 0
  -- in this order, which clear, start and stop the traffic; the last thing that it did is to read the
  -- status, and the code is 0 exactly if every check holds on that status.
  pub main_gmii-Answers :
      (seconds interval : ℕ) (w : CliWorld)
      → 0 < interval
      → (exit_code : ℕ) × (w2 : CliWorld) × (main_gmii h seconds interval w ≡ (ok exit_code, w2))
        × ((s : GmiiStatus) × (w1 : CliWorld) × (read_gmii h w1 ≡ (ok s, w2))
            × (w1.written ≡ 0 ∷ 1 ∷ 2 ∷ w.written)
            × ((exit_code ≡ 0) ↔ All (λ b. b ≡ true) (gmii_checks s)))
  main_gmii-Answers seconds interval w i =
      let (exit_code, w2, e) = main_gmii-answered seconds interval w i in
      (exit_code, w2, e, main_gmii-Returns h seconds interval w w2 exit_code e)
