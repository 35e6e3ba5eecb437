-- ===== src/Loopback/Safe.antt =====
-- How `main` leaves the board.
use Prim.Native.String.{String}
use emac_zero.Base.{Bool, List, [], ap, false, if◌then◌else◌, not, refl, true, ℕ, ◌∙◌, ◌∷◌, ◌≡◌}
use emac_zero.Base.Py.{PyError, Result, err, ok, system_exit}
use emac_zero.Loopback.Board.{Lb, read_status, write_word}
use emac_zero.Loopback.Checks.{add_row, check_row}
use emac_zero.Loopback.Later.{continue}
use emac_zero.Loopback.Names.{find_tests}
use emac_zero.Loopback.Program.{
  after_connect, after_names, close_board, conclude, main_run, new_world, remove_links, run_session,
  run_tests, session,
}
use emac_zero.Loopback.Scripts.{Args, identified, run_test, t_links}
use emac_zero.Loopback.Status.{TestName, decode_status, links}
use emac_zero.Session.{Host, World, fail, raise, read_inputs, try_finally, ◌>>=◌}

pub then_ok :
    {A B : Type 0} (m : Lb A) (f : A → Lb B) {w : World TestName} {a : A} {w' : World TestName}
    → m w ≡ (ok a, w')
    → (m >>= f) w ≡ f a w'
unfolding ◌>>=◌
then_ok {A} {B} m f e = ap (continue f) e

then_err :
    {A B : Type 0} (m : Lb A) (f : A → Lb B) {w : World TestName} {x : PyError}
    {w' : World TestName}
    → m w ≡ (err x, w')
    → (m >>= f) w ≡ (err x, w')
unfolding ◌>>=◌
then_err {A} {B} m f e = ap (continue f) e

module _ (h : Host) where
  -- The state after `close`, whatever it ends with.
  pub close_board-Parks :
      (w : World TestName)
      → let w' = (close_board h w).1 in
        (w'.written ≡ 0 ∷ w.written) × (w'.ctrl ≡ 0) × (w'.closed ≡ true) × (w'.rows ≡ w.rows)
  unfolding close_board write_word
  close_board-Parks w = (refl, refl, refl, refl)

  -- The state after `finally` is the state after `close`.
  try_finally_state :
      (body : Lb (Unit {0})) (w : World TestName)
      → (try_finally body (close_board h) w).1 ≡ (close_board h (body w).1).1
  try_finally_state body w = go (body w)
    where
      go :
          (r : Result (Unit {0}) × World TestName)
          → (let (c, w2) = close_board h r.1 in
              elim c as (λ x. Result (Unit {0}) × World TestName) [
                | ok u ↦ (r.0, w2)
                | err e ↦ (err e, w2)
              ]).1
            ≡ (close_board h r.1).1
      go (r, w1) = after (close_board h w1)
        where
          after :
              (c : Result (Unit {0}) × World TestName)
              → (elim c.0 as (λ x. Result (Unit {0}) × World TestName) [
                | ok u ↦ (r, c.1)
                | err e ↦ (err e, c.1)
              ]).1
                ≡ c.1
          after (ok u, w2) = refl
          after (err e, w2) = refl

  conclude_state : (r : Result (Unit {0}) × World TestName) → (conclude r).1 ≡ r.1
  unfolding conclude
  conclude_state (ok u, w) = refl
  conclude_state (err e, w) = refl

  pub main_run-known :
      (names : List String) (ts : List TestName) (a : Args)
      → find_tests names ≡ ok ts
      → h.connect ≡ ok tt
      → main_run h names a ≡ conclude (session h (links ∷ remove_links ts) a new_world)
  unfolding main_run after_names run_session after_connect
  main_run-known names ts a known open_ok =
      let r = conclude (session h (links ∷ remove_links ts) a new_world) in
      ap (after_names h a) known ∙ ap (λ c. after_connect c r) open_ok

  main_run_state :
      (names : List String) (ts : List TestName) (a : Args)
      → find_tests names ≡ ok ts
      → h.connect ≡ ok tt
      → (main_run h names a).1
        ≡ (close_board h (run_tests h (links ∷ remove_links ts) a new_world).1).1
  unfolding session
  main_run_state names ts a known open_ok =
      ap (λ r. r.1) (main_run-known names ts a known open_ok)
      ∙ conclude_state (session h (links ∷ remove_links ts) a new_world)
      ∙ try_finally_state (run_tests h (links ∷ remove_links ts) a) new_world

  -- Once the session is open, `main` ends with the output word 0 as the last word written and with
  -- the session closed, whether the tests return or raise and whatever their rows are.
  pub main_run-Parks :
      (names : List String) (ts : List TestName) (a : Args)
      → find_tests names ≡ ok ts
      → h.connect ≡ ok tt
      → let w = (main_run h names a).1 in
        ((words : List ℕ) × (w.written ≡ 0 ∷ words)) × (w.ctrl ≡ 0) × (w.closed ≡ true)
  main_run-Parks names ts a known open_ok =
      let w1 = (run_tests h (links ∷ remove_links ts) a new_world).1 in
      let (p, q, r, s) = close_board-Parks w1 in
      let e = main_run_state names ts a known open_ok in
      ((w1.written, ap (λ w. w.written) e ∙ p), ap (λ w. w.ctrl) e ∙ q, ap (λ w. w.closed) e ∙ r)

  pub read_status_ok :
      (w : World TestName) (raw : ℕ)
      → h.inputs w.reads ≡ ok raw
      → read_status h w ≡ (ok (decode_status raw), (read_inputs h w).1)
  unfolding read_status
  read_status_ok w raw e = then_ok (read_inputs h) _ (ap (λ r. (r, (read_inputs h w).1)) e)

  check_row-false :
      (t : TestName) (b : Bool) (w : World TestName)
      → b ≡ false
      → check_row t b w ≡ (ok false, record w { rows = (fail, t) ∷ w.rows })
  unfolding check_row add_row ◌>>=◌
  check_row-false t b w e = rw e refl

  refuse :
      (more : Lb (Unit {0})) (b : Bool) (w : World TestName)
      → b ≡ false
      → ((check_row links b >>= λ ident. if not ident then raise system_exit else more) w)
        ≡ (err system_exit, record w { rows = (fail, links) ∷ w.rows })
  refuse more b w e =
      then_ok (check_row links b) (λ ident. if not ident then raise system_exit else more)
        (check_row-false links b w e)

  t_links_refuses :
      (a : Args) (raw : ℕ)
      → h.inputs 0 ≡ ok raw
      → identified h.in_w (decode_status raw) ≡ false
      → t_links h a new_world
        ≡ (err system_exit, record (read_inputs h new_world).1 { rows = (fail, links) ∷ [] })
  unfolding t_links
  t_links_refuses a raw e f =
      then_ok (read_status h) _ (read_status_ok new_world raw e)
      ∙ refuse _ (identified h.in_w (decode_status raw)) (read_inputs h new_world).1 f

  -- On a board that is not identified by its first status, `main` writes the word 0 and no other: it
  -- starts no traffic and holds no reset, whichever tests were asked for. The rows are the one failure.
  pub main_run-Refuses :
      (names : List String) (ts : List TestName) (a : Args) (raw : ℕ)
      → find_tests names ≡ ok ts
      → h.connect ≡ ok tt
      → h.inputs 0 ≡ ok raw
      → identified h.in_w (decode_status raw) ≡ false
      → let w = (main_run h names a).1 in (w.written ≡ 0 ∷ []) × (w.rows ≡ (fail, links) ∷ [])
  unfolding run_tests run_test
  main_run-Refuses names ts a raw known open_ok first not_ours =
      let e = main_run_state names ts a known open_ok in
      let w1 = (run_tests h (links ∷ remove_links ts) a new_world).1 in
      let q =
        ap (λ r. r.1)
          (then_err (t_links h a) (λ u. run_tests h (remove_links ts) a)
            (t_links_refuses a raw first not_ours)) in
      let (p, _, _, s) = close_board-Parks w1 in
      (
        ap (λ w. w.written) e ∙ p ∙ ap (λ (w : World TestName). 0 ∷ w.written) q,
        ap (λ w. w.rows) e ∙ s ∙ ap (λ (w : World TestName). w.rows) q,
      )
