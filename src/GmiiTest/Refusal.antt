-- ===== src/GmiiTest/Refusal.antt =====
-- What `main` writes: nothing to a board that it refuses, and a clear, a start and a stop otherwise.
use emac_zero.Base.{
  List, ap, arith, false, replicate, refl, suc, sym, zero, ℕ, ◌++◌, ◌+◌, ◌∙◌, ◌∷◌, ◌≡◌,
}
use emac_zero.Base.Py.{Result, err, ok, system_exit}
use emac_zero.Base.Text.{Line}
use emac_zero.GmiiTest.{
  Cli, CliAction, CliWorld, Command, GmiiStatus, Outcome, after_run, by_outcome, decode_gmii,
  eio_read, failed, fcapz, fcapz_loop, give, gmii_ready, goes_on_with, last_hex, main_gmii, noted,
  printed, read_gmii,
}

-- A step that succeeded, and what came after it.
pub goes_on-ok :
    {A B : Type 0} (f : A → CliAction B) (p : Result A × CliWorld) {b : B} {w2 : CliWorld}
    → goes_on_with f p ≡ (ok b, w2)
    → (a : A) × (w1 : CliWorld) × (p ≡ (ok a, w1)) × (f a w1 ≡ (ok b, w2))
unfolding goes_on_with
goes_on-ok f (ok a, w) h = (a, w, refl, h)
goes_on-ok f (err e, w) h = absurd (differ (ap (λ x. x.0) h))
  where
    differ : {B : Type 0} {b : B} → err e ≡ ok b → ⊥
    differ h = cc

-- Runs of one command, whatever their number.
abbrev pub Runs : Command → CliWorld → CliWorld → Type 0
Runs c w w' = (k : ℕ) × (w'.log ≡ replicate k c ++ w.log)

replicate-shift :
    (k : ℕ) (c : Command) (xs : List Command) → replicate k c ++ c ∷ xs ≡ replicate (suc k) c ++ xs
replicate-shift zero c xs = refl
replicate-shift (suc k) c xs = ap (◌∷◌ c) (replicate-shift k c xs)

replicate-split :
    (k n : ℕ) (c : Command) (xs : List Command)
    → replicate k c ++ (replicate n c ++ xs) ≡ replicate (n + k) c ++ xs
replicate-split zero n c xs =
    let e : n ≡ n + 0 = omega arith in ap (λ (t : ℕ). replicate t c ++ xs) e
replicate-split (suc k) n c xs =
    let e : suc (n + k) ≡ n + suc k = omega arith in
    ap (◌∷◌ c) (replicate-split k n c xs) ∙ ap (λ (t : ℕ). replicate t c ++ xs) e

Runs-trans : (c : Command) (u v w : CliWorld) → Runs c u v → Runs c v w → Runs c u w
Runs-trans c u v w (n, e) (k, f) =
    (n + k, f ∙ ap (λ x. replicate k c ++ x) e ∙ replicate-split k n c u.log)

-- What a command leaves: runs of itself, and its word if and only if it succeeds.
abbrev pub Ran : Command → CliWorld → Result (List Line) × CliWorld → Type 0
Ran c w (ok lines, w') = Runs c w w' × (w'.written ≡ noted c w.written)
Ran c w (err e, w') = Runs c w w' × (w'.written ≡ w.written)

-- A read leaves runs of the reading command alone, and no word, whatever it gives.
abbrev pub OnlyReads : CliWorld → CliWorld → Type 0
OnlyReads w w' = Runs eio_read w w' × (w'.written ≡ w.written)

module _ (h : Cli) where
  later_Ran :
      (c : Command) (w w1 : CliWorld) (p : Result (List Line) × CliWorld)
      → w1.log ≡ c ∷ w.log
      → w1.written ≡ w.written
      → Ran c w1 p
      → Ran c w p
  later_Ran c w w1 (ok lines, w') e f ((k, p), q) =
      (Runs-trans c w w1 w' (1, e) (k, p), q ∙ ap (noted c) f)
  later_Ran c w w1 (err x, w') e f ((k, p), q) = (Runs-trans c w w1 w' (1, e) (k, p), q ∙ f)

  by_outcome-Ran :
      (c : Command) (w : CliWorld) (again : Result (List Line) × CliWorld) (o : Outcome)
      → Ran c w again
      → Ran c w (by_outcome h c w again o)
  unfolding by_outcome
  by_outcome-Ran c w again (printed lines) r = ((1, refl), refl)
  by_outcome-Ran c w again failed r = r

  fcapz_loop-Ran : (tries : ℕ) (c : Command) (w : CliWorld) → Ran c w (fcapz_loop h tries c w)
  unfolding fcapz_loop
  fcapz_loop-Ran zero c w = ((0, refl), refl)
  fcapz_loop-Ran (suc tries) c w =
      let w1 = record (after_run h c w) { now = (after_run h c w).now + 2000 } in
      by_outcome-Ran c w (fcapz_loop h tries c w1) (h.outcome w.runs c)
        (later_Ran c w w1 (fcapz_loop h tries c w1) refl refl (fcapz_loop-Ran tries c w1))

  pub fcapz-Ran : (c : Command) (w : CliWorld) → Ran c w (fcapz h c w)
  unfolding fcapz
  fcapz-Ran = fcapz_loop-Ran 5

  decode_part :
      (w : CliWorld) (lines : List Line) (w1 : CliWorld)
      → OnlyReads w w1
      → OnlyReads w (goes_on_with (λ raw. give (ok (decode_gmii raw))) (last_hex lines, w1)).1
  decode_part w lines w1 r = by_result (last_hex lines)
    where
      by_result :
          (x : Result ℕ) → OnlyReads w (goes_on_with (λ raw. give (ok (decode_gmii raw))) (x, w1)).1
      by_result (ok raw) = unfold goes_on_with in r
      by_result (err e) = unfold goes_on_with in r

  read_part :
      (w : CliWorld) (p : Result (List Line) × CliWorld)
      → Ran eio_read w p
      → OnlyReads w
          (goes_on_with
            (λ lines.
              (λ w1. goes_on_with (λ raw. give (ok (decode_gmii raw))) (last_hex lines, w1)))
            p).1
  unfolding goes_on_with noted
  read_part w (ok lines, w1) r = decode_part w lines w1 r
  read_part w (err e, w1) r = r

  pub read_gmii-OnlyReads : (w : CliWorld) → OnlyReads w (read_gmii h w).1
  unfolding read_gmii
  read_gmii-OnlyReads w = read_part w (fcapz h eio_read w) (fcapz-Ran eio_read w)

  -- A board whose marker is not 0xB0A, or that is not ready, is refused: `main` exits with an error,
  -- and what it ran is the reading command alone, which writes no word to the board.
  pub main_gmii-Refuses :
      (seconds interval : ℕ) (w w1 : CliWorld) (s : GmiiStatus)
      → read_gmii h w ≡ (ok s, w1)
      → gmii_ready s ≡ false
      → ((main_gmii h seconds interval w).0 ≡ err system_exit)
        × OnlyReads w (main_gmii h seconds interval w).1
  unfolding main_gmii
  main_gmii-Refuses seconds interval w w1 s e n =
      let step : main_gmii h seconds interval w ≡ (err system_exit, w1) =
        rw e (unfold goes_on_with in rw n refl) in
      let reads : OnlyReads w w1 = rw (ap (λ p. p.1) (sym e)) (read_gmii-OnlyReads w) in
      rw step (refl, reads)
