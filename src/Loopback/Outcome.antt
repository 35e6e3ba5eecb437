-- ===== src/Loopback/Outcome.antt =====
-- What the exit code 0 says of the board.
use Prim.Native.String.{String}
use mathlib.Core.List.{reverse, reverse_aux}
use mathlib.Core.Path.{subst}
use emac_zero.Base.{
  Bool, List, [], ap, false, if◌then◌else◌, inl, inr, not, refl, sym, true, ℕ, ◌∙◌, ◌∷◌, ◌≡◌,
}
use emac_zero.Base.Predicates.{All}
use emac_zero.Base.Py.{Result, err, ok, ok-injective, system_exit}
use emac_zero.Loopback.Board.{Lb, read_status}
use emac_zero.Loopback.Checks.{add_row, check_row}
use emac_zero.Loopback.Names.{find_tests}
use emac_zero.Loopback.Passed.{
  IsClean, Listed, Post, Post-either, WasClean, run_tests-Post, then-Post,
}
use emac_zero.Loopback.Program.{
  close_board, conclude, exit_code, main_run, new_world, remove_links, run_tests, session,
}
use emac_zero.Loopback.Safe.{close_board-Parks, main_run-known}
use emac_zero.Loopback.Scripts.{Args, identified, run_test, t_links}
use emac_zero.Loopback.Status.{Status, TestName, decode_status, links, traffic}
use emac_zero.Loopback.Verdicts.{exit_code-zero_iff}
use emac_zero.Session.{Host, World, pass, raise, read_inputs, try_finally, ◌>>=◌}

All-reverse_aux :
    {A : Type 0} (P : A → Type 0) (xs ys : List A) → All P (reverse_aux xs ys) → All P xs × All P ys
All-reverse_aux P [] ys g = (tt, g)
All-reverse_aux P (x ∷ xs) ys g = let (a, b) = All-reverse_aux P xs (x ∷ ys) g in ((b.0, a), b.1)

-- The program identified the board by its first status.
abbrev pub WasFound : Host → Type 0
WasFound h = (raw : ℕ) × (h.inputs 0 ≡ ok raw) × (identified h.in_w (decode_status raw) ≡ true)

const-Post : {A : Type 0} (P : Type 0) (r : Result A × World TestName) → P → Post (λ u w. P) r
const-Post P (ok a, w) p = p
const-Post P (err e, w) p = tt

found-Post :
    (more : Lb (Unit {0})) (b : Bool) (w : World TestName)
    → Post
        (λ u w'. b ≡ true)
        ((check_row links b >>= λ ident. if not ident then raise system_exit else more) w)
unfolding check_row add_row ◌>>=◌
found-Post more true w =
    const-Post (true ≡ true) (more (record w { rows = (pass, links) ∷ w.rows })) refl
found-Post more false w = tt

weaken-Post :
    {A : Type 0} (Q R : A → World TestName → Type 0) (r : Result A × World TestName)
    → Post Q r
    → ((a : A) (w : World TestName) → Q a w → R a w)
    → Post R r
weaken-Post Q R (ok a, w) q k = k a w q
weaken-Post Q R (err e, w) q k = tt

module _ (h : Host) where
  abbrev Decoded : Status → World TestName → Type 0
  Decoded s w = (raw : ℕ) × (h.inputs 0 ≡ ok raw) × (s ≡ decode_status raw)

  first_status : Post Decoded (read_status h new_world)
  unfolding read_status
  first_status =
      then-Post (λ raw w. h.inputs 0 ≡ ok raw) Decoded (read_inputs h) _ new_world
        (Post-either _ (h.inputs 0) _ (λ raw e. e)) (λ raw w e. (raw, e, refl))

  t_links-Post : (a : Args) → Post (λ u w. WasFound h) (t_links h a new_world)
  unfolding t_links
  t_links-Post a =
      then-Post Decoded (λ u w. WasFound h) (read_status h) _ new_world first_status
        (λ s w (raw, e, q).
          weaken-Post _ (λ u w'. WasFound h) _ (found-Post _ (identified h.in_w s) w)
            (λ u w' i. (raw, e, rw q at i)))

  -- What the whole list of tests has seen.
  abbrev Saw : Unit {0} → World TestName → Type 0
  Saw u w = WasFound h × WasClean h tt w

  run_tests-Saw :
      (ts : List TestName) (a : Args)
      → Listed traffic ts
      → Post Saw (run_tests h (links ∷ ts) a new_world)
  unfolding run_tests run_test
  run_tests-Saw ts a l =
      then-Post (λ u w. WasFound h) Saw (t_links h a) _ new_world (t_links-Post a)
        (λ u w f. weaken-Post _ Saw _ (run_tests-Post h ts a w l) (λ u' w' c. (f, c)))

conclude-Post :
    (Q : Unit {0} → World TestName → Type 0) (r : Result (Unit {0}) × World TestName)
    (w : World TestName)
    → Post Q r
    → conclude r ≡ (ok 0, w)
    → Q tt w × (exit_code (reverse w.rows) ≡ 0)
unfolding conclude
conclude-Post Q (ok u, w1) w q e =
    let same : w1 ≡ w = ap (λ (p : Result ℕ × World TestName). p.1) e in
    let code : ok (exit_code (reverse w1.rows)) ≡ ok 0 =
      ap (λ (p : Result ℕ × World TestName). p.0) e in
    (subst (Q tt) same q, subst (λ w'. exit_code (reverse w'.rows) ≡ 0) same (ok-injective code))
conclude-Post Q (err x, w1) w q e =
    let r : err x ≡ ok 0 = ap (λ (p : Result ℕ × World TestName). p.0) e in cc

-- `close` keeps the rows, so what holds of them before it holds after it.
finally-Post :
    (h : Host) (Q : Unit {0} → World TestName → Type 0) (body : Lb (Unit {0})) (w : World TestName)
    → ((u v : World TestName) → v.rows ≡ u.rows → Q tt u → Q tt v)
    → Post Q (body w)
    → Post Q (try_finally body (close_board h) w)
finally-Post h Q body w stable q = go (body w) q
  where
    after :
        (r : Result (Unit {0})) (w1 : World TestName) (c : Result (Unit {0}) × World TestName)
        → c.1.rows ≡ w1.rows
        → Post Q (r, w1)
        → Post Q (elim c.0 as (λ x. Result (Unit {0}) × World TestName) [
          | ok u ↦ (r, c.1)
          | err e ↦ (err e, c.1)
        ])
    after (ok u) w1 (ok v, w2) same l = stable w1 w2 same l
    after (err x) w1 (ok v, w2) same l = tt
    after r w1 (err y, w2) same l = tt

    go :
        (p : Result (Unit {0}) × World TestName)
        → Post Q p
        → Post Q (
            let (c, w2) = close_board h p.1 in
            elim c as (λ x. Result (Unit {0}) × World TestName) [
              | ok u ↦ (p.0, w2)
              | err e ↦ (err e, w2)
            ])
    go (r, w1) l = after r w1 (close_board h w1) (close_board-Parks h w1).3 l

Listed-remove : (ts : List TestName) → Listed traffic ts → Listed traffic (remove_links ts)
unfolding remove_links
Listed-remove [] l = absurd l
Listed-remove (links ∷ ts) (inl e) = cc
Listed-remove (links ∷ ts) (inr l) = l
Listed-remove (t ∷ ts) (inl e) = inl e
Listed-remove (t ∷ ts) (inr l) = inr (Listed-remove ts l)

-- If the names are known and hold `traffic`, the session opens and `main` ends with 0, then the first
-- status identified the board, and some word that the board gave decodes to a status in which
-- requests were sent, each kind was answered, the answers are as many as the requests, and neither a
-- bad reply nor a timeout is counted.
pub main_run-Passed :
    (h : Host) (names : List String) (ts : List TestName) (a : Args) (w : World TestName)
    → find_tests names ≡ ok ts
    → h.connect ≡ ok tt
    → Listed traffic ts
    → main_run h names a ≡ (ok 0, w)
    → WasFound h × ((s : Status) × IsClean h s)
unfolding session
main_run-Passed h names ts a w known open_ok l e =
    let p =
      finally-Post h (Saw h) (run_tests h (links ∷ remove_links ts) a) new_world
        (λ u v same q. (q.0, λ g. q.1 (rw same at g)))
        (run_tests-Saw h (remove_links ts) a (Listed-remove ts l)) in
    let (saw, code) =
      conclude-Post (Saw h) (session h (links ∷ remove_links ts) a new_world) w p
        (sym (main_run-known h names ts a known open_ok) ∙ e) in
    (saw.0, saw.1 (All-reverse_aux _ w.rows [] ((exit_code-zero_iff (reverse w.rows)).0 code)).0)
