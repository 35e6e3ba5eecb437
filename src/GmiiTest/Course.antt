-- ===== src/GmiiTest/Course.antt =====
-- A run that `main` completes.
use emac_zero.Base.{
  Bool, Bool-cases, List, [], ap, arith, false, if◌then◌else◌, inl, inr, ltb, min, refl, suc, sym,
  true, zero, ℕ, ◌+◌, ◌-◌, ◌==◌, ◌∙◌, ◌∷◌, ◌≡◌, ◌↔◌,
}
use emac_zero.Base.Predicates.{All}
use emac_zero.Base.Py.{Result, err, ok, system_exit}
use emac_zero.Base.Text.{Line}
use emac_zero.GmiiTest.{
  Cli, CliWorld, Command, GmiiStatus, eio_write, fcapz, give, gmii_checks, gmii_ready, goes_on_with,
  main_gmii, noted, progress, read_gmii, run_gmii,
}
use emac_zero.GmiiTest.Refusal.{Ran, fcapz-Ran, goes_on-ok, read_gmii-OnlyReads}
use emac_zero.Selftest.Results.{count_fails}

count_fails_iff : (bs : List Bool) → (count_fails bs ≡ 0) ↔ All (λ b. b ≡ true) bs
unfolding count_fails
count_fails_iff [] = ((λ h. tt), (λ h. refl))
count_fails_iff (true ∷ bs) = (
  (λ h. (refl, (count_fails_iff bs).0 (omega arith))),
  (λ h. omega (arith, (count_fails_iff bs).1 h.1)),
)
count_fails_iff (false ∷ bs) = ((λ h. absurd (omega arith)), (λ h. absurd (differ h.0)))
  where
    differ : false ≡ true → ⊥
    differ e = cc

code_iff : (n : ℕ) → (◌≡◌ {A = ℕ} (if n == 0 then 0 else 1) 0) ↔ (n ≡ 0)
code_iff zero = ((λ h. refl), (λ h. refl))
code_iff (suc n) = ((λ h. absurd (grind arith)), (λ h. absurd (omega arith)))

ok-inj : {a b : ℕ} → ok a ≡ ok b → a ≡ b
ok-inj e = cc

passes :
    (n : ℕ) (bs : List Bool) (exit_code : ℕ)
    → count_fails bs ≡ n
    → (if n == 0 then 0 else 1) ≡ exit_code
    → (exit_code ≡ 0) ↔ All (λ b. b ≡ true) bs
passes n bs exit_code e c = (
  (λ z. (count_fails_iff bs).0 (e ∙ (code_iff n).0 (c ∙ z))),
  (λ a. sym c ∙ (code_iff n).1 (sym e ∙ (count_fails_iff bs).1 a)),
)

refused :
    {A : Type 0} {w w2 : CliWorld} {a : A}
    → ◌≡◌ {A = Result A × CliWorld} (err system_exit, w) (ok a, w2)
    → ⊥
refused x = differ (ap (λ p. p.0) x)
  where
    differ : {A : Type 0} {a : A} → err system_exit ≡ ok a → ⊥
    differ h = cc

module _ (h : Cli) where
  wrote_by :
      (c : Command) (w : CliWorld) (p : Result (List Line) × CliWorld) {lines : List Line}
      {w1 : CliWorld}
      → Ran c w p
      → p ≡ (ok lines, w1)
      → w1.written ≡ noted c w.written
  wrote_by c w (ok l, v) r e = ap (λ p. p.1.written) (sym e) ∙ r.1
  wrote_by c w (err x, v) r e = absurd (differ (ap (λ p. p.0) e))
    where
      differ : {A : Type 0} {a : A} → err x ≡ ok a → ⊥
      differ h = cc

  wrote :
      (c : Command) (w w1 : CliWorld) (lines : List Line)
      → fcapz h c w ≡ (ok lines, w1)
      → w1.written ≡ noted c w.written
  wrote c w w1 lines e = wrote_by c w (fcapz h c w) (fcapz-Ran h c w) e

  read_kept :
      (w w1 : CliWorld) (s : GmiiStatus) → read_gmii h w ≡ (ok s, w1) → w1.written ≡ w.written
  read_kept w w1 s e = ap (λ p. p.1.written) (sym e) ∙ (read_gmii-OnlyReads h w).1

  kept_over :
      (fuel seconds interval t0 : ℕ) (p : Result GmiiStatus × CliWorld) (x : List ℕ)
      → p.1.written ≡ x
      → ((w : CliWorld) → (progress h fuel seconds interval t0 w).1.written ≡ w.written)
      → (goes_on_with (λ s. progress h fuel seconds interval t0) p).1.written ≡ x
  unfolding goes_on_with
  kept_over fuel seconds interval t0 (ok s, w) x e ih = ih w ∙ e
  kept_over fuel seconds interval t0 (err y, w) x e ih = e

  progress_kept :
      (fuel seconds interval t0 : ℕ) (w : CliWorld)
      → (progress h fuel seconds interval t0 w).1.written ≡ w.written
  unfolding progress
  progress_kept zero seconds interval t0 w = refl
  progress_kept (suc fuel) seconds interval t0 w =
      let w1 = record w { now = w.now + min interval (seconds - (w.now - t0)) } in
      let rest =
        kept_over fuel seconds interval t0 (read_gmii h w1) w.written (read_gmii-OnlyReads h w1).1
          (progress_kept fuel seconds interval t0) in
      elim (Bool-cases (ltb (w.now - t0) seconds)) [ inl y ↦ rw y rest | inr n ↦ rw n refl ]

  ready_only :
      (seconds interval : ℕ) (s : GmiiStatus) (v w2 : CliWorld) (exit_code : ℕ)
      → (if gmii_ready s then run_gmii h seconds interval else give (err system_exit)) v
        ≡ (ok exit_code, w2)
      → run_gmii h seconds interval v ≡ (ok exit_code, w2)
  ready_only seconds interval s v w2 exit_code x = elim (Bool-cases (gmii_ready s)) [
    | inl y ↦ rw y at x
    | inr n ↦ absurd (refused (rw n at x))
  ]

  -- The steps of a run that returns a code.
  run_gmii-Returns :
      (seconds interval : ℕ) (w w2 : CliWorld) (exit_code : ℕ)
      → run_gmii h seconds interval w ≡ (ok exit_code, w2)
      → (s : GmiiStatus) × (w1 : CliWorld) × (read_gmii h w1 ≡ (ok s, w2))
        × (w1.written ≡ 0 ∷ 1 ∷ 2 ∷ w.written)
        × ((exit_code ≡ 0) ↔ All (λ b. b ≡ true) (gmii_checks s))
  unfolding run_gmii noted goes_on_with
  run_gmii-Returns seconds interval w w2 exit_code e =
      let (l2, v2, r2, e2) = goes_on-ok _ (fcapz h (eio_write 2) w) e in
      let v2' = record v2 { now = v2.now + 200 } in
      let (l1, v1, r1, e1) = goes_on-ok _ (fcapz h (eio_write 1) v2') e2 in
      let (u, vp, rp, ep) = goes_on-ok _ (progress h (seconds + 1) seconds interval v1.now v1) e1 in
      let (l0, v0, r0, e0) = goes_on-ok _ (fcapz h (eio_write 0) vp) ep in
      let v0' = record v0 { now = v0.now + 1000 } in
      let (s, vs, rs, es) = goes_on-ok _ (read_gmii h v0') e0 in
      let code : (if count_fails (gmii_checks s) == 0 then 0 else 1) ≡ exit_code =
        ok-inj (ap (λ p. p.0) es) in
      let last : vs ≡ w2 = ap (λ p. p.1) es in
      let kept =
        ap (λ p. p.1.written) (sym rp)
        ∙ progress_kept (seconds + 1) seconds interval v1.now v1
        ∙ wrote (eio_write 1) v2' v1 l1 r1
        ∙ ap (◌∷◌ 1) (wrote (eio_write 2) w v2 l2 r2) in
      (
        s,
        v0',
        rs ∙ ap (λ v. (ok s, v)) last,
        wrote (eio_write 0) vp v0 l0 r0 ∙ ap (◌∷◌ 0) kept,
        passes (count_fails (gmii_checks s)) (gmii_checks s) exit_code refl code,
      )

  -- Where `main` returns a code, the words that it wrote are 2, 1 and 0 in this order, so that the
  -- traffic was cleared, started and stopped; the status was read after that, and the code is 0
  -- exactly if every check holds on it.
  pub main_gmii-Returns :
      (seconds interval : ℕ) (w w2 : CliWorld) (exit_code : ℕ)
      → main_gmii h seconds interval w ≡ (ok exit_code, w2)
      → (s : GmiiStatus) × (w1 : CliWorld) × (read_gmii h w1 ≡ (ok s, w2))
        × (w1.written ≡ 0 ∷ 1 ∷ 2 ∷ w.written)
        × ((exit_code ≡ 0) ↔ All (λ b. b ≡ true) (gmii_checks s))
  unfolding main_gmii
  main_gmii-Returns seconds interval w w2 exit_code e =
      let (s0, v0, r0, e0) = goes_on-ok _ (read_gmii h w) e in
      let (s, w1, r, x, q) =
        run_gmii-Returns seconds interval v0 w2 exit_code
          (ready_only seconds interval s0 v0 w2 exit_code e0) in
      (s, w1, r, x ∙ ap (λ ws. 0 ∷ 1 ∷ 2 ∷ ws) (read_kept w v0 s0 r0), q)
