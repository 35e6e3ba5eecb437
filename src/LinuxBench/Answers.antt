-- ===== src/LinuxBench/Answers.antt =====
-- What `run` gives back of the console, and when the exit code is 0.
use emac_zero.Base.{
  Bool, List, [], ap, arith, both_true, false, if◌then◌else◌, refl, some, true, ℕ, ◌++◌, ◌↔◌, ◌∙◌,
  ◌∷◌, ◌≡◌,
}
use emac_zero.Base.Predicates.{All}
use emac_zero.Base.Py.{bind_ok, ok, ok-injective, ◌>>=◌}
use emac_zero.Base.Text.{Line, same_text, same_text_self}
use emac_zero.LinuxBench.Bench.{
  Options, Target, Trial, all_agree, close_target, start_target, is_agree, main_bench, run_trial,
  verdicts,
}
use emac_zero.LinuxBench.Console.{board_run, after_begin, before_end, begin_line, is_end, run_lines}
use emac_zero.LinuxBench.Ledger.{Agreement, agree, differ, invalid}

after_begin-found :
    (pre rest : List Line)
    → All (λ l. same_text l begin_line ≡ false) pre
    → after_begin (pre ++ (begin_line ∷ rest)) ≡ some rest
unfolding after_begin
after_begin-found [] rest h = rw (same_text_self begin_line) refl
after_begin-found (l ∷ pre) rest h = rw (h.0) (after_begin-found pre rest h.1)

before_end-found :
    (body post : List Line) (e : Line)
    → All (λ l. is_end l ≡ false) body
    → is_end e ≡ true
    → before_end (body ++ (e ∷ post)) ≡ some body
unfolding before_end
before_end-found [] post e h q = rw q refl
before_end-found (l ∷ body) post e h q = rw (h.0, before_end-found body post e h.1 q) refl

-- `run` gives the lines between the line that is the begin marker and the first line after it that
-- is the end marker, a space and digits, if no line before the begin marker equals it. What stands
-- after the end does not matter.
pub run_lines-between :
    (pre body post : List Line) (e : Line)
    → All (λ l. same_text l begin_line ≡ false) pre
    → All (λ l. is_end l ≡ false) body
    → is_end e ≡ true
    → run_lines (pre ++ (begin_line ∷ (body ++ (e ∷ post)))) ≡ ok body
unfolding run_lines
run_lines-between pre body post e h k q =
    rw (after_begin-found pre (body ++ (e ∷ post)) h, before_end-found body post e k q, run_lines)
      refl

is_agree_iff : (v : Agreement) → (is_agree v ≡ true) ↔ (v ≡ agree)
is_agree_iff agree = (λ e. refl, λ e. refl)
is_agree_iff differ = (λ e. cc, λ e. cc)
is_agree_iff invalid = (λ e. cc, λ e. cc)

code_zero : (b : Bool) (n : ℕ) → n ≡ (if b then 0 else 1) → n ≡ 0 → b ≡ true
code_zero true n e h = refl
code_zero false n e h = absurd (omega arith)

module _ {D : Type 0} (o : Options) where
  verdicts-agree :
      (ts : List (Trial D)) (vs : List Agreement)
      → verdicts o true ts ≡ ok vs
      → all_agree vs ≡ true
      → All (λ t. run_trial o t ≡ ok agree) ts
  unfolding verdicts all_agree
  verdicts-agree [] vs e g = tt
  verdicts-agree (t ∷ ts) vs e g =
      let (v, e1, e2) = bind_ok (run_trial o t) (λ v. verdicts o true ts >>= λ ws. ok (v ∷ ws)) e in
      let (ws, e3, e4) = bind_ok (verdicts o true ts) (λ ws. ok (v ∷ ws)) e2 in
      let (p, q) = both_true (is_agree v) (all_agree ws) (rw (← ok-injective e4) at g) in
      (e1 ∙ ap ok ((is_agree_iff v).0 p), verdicts-agree ts ws e3 q)

  agree-verdicts :
      (ts : List (Trial D))
      → All (λ t. run_trial o t ≡ ok agree) ts
      → (vs : List Agreement) × (verdicts o true ts ≡ ok vs) × (all_agree vs ≡ true)
  unfolding verdicts all_agree
  agree-verdicts [] h = ([], refl, refl)
  agree-verdicts (t ∷ ts) h =
      let (ws, e, g) = agree-verdicts ts h.1 in (agree ∷ ws, rw (h.0, e) refl, g)

  -- With a board whose first command is answered, and a client and files that work, `main` ends with 0
  -- exactly if every test ran and its counts agreed.
  pub main_bench-zero_iff :
      (b : Target) (out : List Line) (ts : List (Trial D))
      → b.opened ≡ ok tt
      → board_run b.info ≡ ok out
      → b.closed ≡ ok tt
      → (main_bench o (record { board = some b; version = ok tt; report = ok tt }) ts ≡ ok 0)
        ↔ All (λ t. run_trial o t ≡ ok agree) ts
  unfolding main_bench start_target close_target
  main_bench-zero_iff b out ts h k l = (
    λ e.
        let (vs, e1, e2) =
          bind_ok (verdicts o true ts) (λ vs. ok (if all_agree vs then 0 else 1))
            (rw (h, k, l) at e) in
        verdicts-agree ts vs e1 (code_zero (all_agree vs) _ refl (ok-injective e2)),
    λ a. let (vs, e, g) = agree-verdicts ts a in rw (h, k, e, g, l) refl,
  )
