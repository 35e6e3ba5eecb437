-- ===== src/Loopback/Passed.antt =====
-- What an exit code 0 says: the program identified the board, and a test of the list saw what its
-- checks ask for.
use emac_zero.Base.{
  Bool, List, [], arith, false, if◌then◌else◌, inl, inr, refl, true, ℕ, ◌+◌, ◌<◌, ◌∷◌, ◌≡◌, ◌≢◌,
  ◌⊎◌,
}
use emac_zero.Base.Predicates.{All-append_right}
use emac_zero.Base.Py.{Result, err, ok}
use emac_zero.Loopback.Board.{Lb, read_status, run_traffic}
use emac_zero.Loopback.Checks.{add_row, all_answered, all_kinds, check_row, clean_traffic}
use emac_zero.Loopback.History.{run_test-Grows}
use emac_zero.Loopback.Later.{Grows, IsLater, continue, same-Grows, then-Grows}
use emac_zero.Loopback.Program.{run_tests}
use emac_zero.Loopback.Scripts.{Args, run_test, t_traffic}
use emac_zero.Loopback.Status.{Status, TestName, decode_status, ok_valid, traffic}
use emac_zero.Loopback.Verdicts.{NoFail}
use emac_zero.Session.{Host, World, fail, pass, pure, read_inputs, ◌>>=◌, ◌>>◌}

-- Of a call that returned: `Q` of its value and the state.
abbrev pub Post : {A : Type 0} → (A → World TestName → Type 0) → Result A × World TestName → Type 0
Post Q (ok a, w) = Q a w
Post Q (err e, w) = Unit {0}

pub Post-either :
    {A : Type 0} (Q : A → World TestName → Type 0) (r : Result A) (w : World TestName)
    → ((a : A) → r ≡ ok a → Q a w)
    → Post Q (r, w)
Post-either Q (ok a) w q = q a refl
Post-either Q (err e) w q = tt

-- A block that goes on from a call.
pub then-Post :
    {A B : Type 0} (P : A → World TestName → Type 0) (Q : B → World TestName → Type 0) (m : Lb A)
    (f : A → Lb B) (w : World TestName)
    → Post P (m w)
    → ((a : A) (w' : World TestName) → P a w' → Post Q (f a w'))
    → Post Q ((m >>= f) w)
unfolding ◌>>=◌
then-Post {A} {B} P Q m f w p k = go (m w) p
  where
    go : (r : Result A × World TestName) → Post P r → Post Q (continue f r)
    go (ok a, w') l = k a w' l
    go (err x, w') l = tt

-- A part whose value and state do not matter.
pub skip-Post :
    {A B : Type 0} (Q : B → World TestName → Type 0) (m : Lb A) (f : A → Lb B) (w : World TestName)
    → ((a : A) (w' : World TestName) → Post Q (f a w'))
    → Post Q ((m >>= f) w)
skip-Post {A} Q m f w k = then-Post (λ a w'. Unit {0}) Q m f w (go (m w)) (λ a w' u. k a w')
  where
    go : (r : Result A × World TestName) → Post (λ a w'. Unit {0}) r
    go (ok a, w') = tt
    go (err x, w') = tt

NoFail-later : (w w' : World TestName) → IsLater w w' → NoFail w'.rows → NoFail w.rows
NoFail-later w w' l g = All-append_right _ l.0.0 w.rows (rw l.0.1 at g)

-- The status was decoded from a word that the board gave.
abbrev pub IsRead : Host → Status → Type 0
IsRead h s = (k : ℕ) × (raw : ℕ) × (h.inputs k ≡ ok raw) × (s ≡ decode_status raw)

-- Requests were sent, each kind was answered, the answers are as many as the requests, and neither a
-- bad reply nor a timeout is counted.
abbrev pub IsAnswered : Status → Type 0
IsAnswered s =
    (0 < s.tx_count)
    × (0 < s.ok_arp)
    × (0 < s.ok_icmp)
    × (0 < s.ok_udp)
    × (s.ok_arp + s.ok_icmp + s.ok_udp ≡ s.tx_count)
    × (s.bad ≡ 0)
    × (s.timeouts ≡ 0)

checks-IsAnswered : (s : Status) → all_kinds s ≡ true → all_answered s ≡ true → IsAnswered s
unfolding all_kinds all_answered ok_valid
checks-IsAnswered s k a = (
  ground arith,
  ground arith,
  ground arith,
  ground arith,
  ground arith,
  ground arith,
  ground arith,
)

-- A status that the board gave, and in which everything was answered.
abbrev pub IsClean : Host → Status → Type 0
IsClean h s = IsRead h s × IsAnswered s

-- The test stands in the list.
abbrev pub Listed : TestName → List TestName → Type 0
Listed t [] = ⊥
Listed t (u ∷ us) = (u ≡ t) ⊎ Listed t us

pass_if : (b : Bool) → (if b then pass else fail) ≢ fail → b ≡ true
pass_if true g = refl
pass_if false g = absurd (g refl)

module _ (h : Host) where
  read_status-Post : (w : World TestName) → Post (λ s w'. IsRead h s) (read_status h w)
  unfolding read_status
  read_status-Post w =
      then-Post (λ raw w'. h.inputs w.reads ≡ ok raw) _ (read_inputs h) _ w
        (Post-either _ (h.inputs w.reads) _ (λ raw e. e)) (λ raw w' e. (w.reads, raw, e, refl))

  run_traffic-Post :
      (seconds extra progress : ℕ) (w : World TestName)
      → Post (λ s w'. IsRead h s) (run_traffic h seconds extra progress w)
  unfolding run_traffic
  run_traffic-Post seconds extra progress w = skip-Post _ _ _ w (λ u w1. skip-Post _ _ _ w1 (λ u w2.
      skip-Post _ _ _ w2 (λ u w3. skip-Post _ _ _ w3 (λ t0 w4.
        skip-Post _ _ _ w4 (λ u w5.
          skip-Post _ _ _ w5 (λ u w6. skip-Post _ _ _ w6 (λ u w7. read_status-Post w7)))))))

  -- Clean traffic, where the rows hold no failure.
  abbrev pub WasClean : {A : Type 0} → A → World TestName → Type 0
  WasClean a w = NoFail w.rows → (s : Status) × IsClean h s

  -- The two rows of `clean_traffic`.
  two_rows-Post :
      (t : TestName) (s : Status) (w : World TestName)
      → IsRead h s
      → Post WasClean ((do check_row t (all_kinds s); check_row t (all_answered s); pure s) w)
  unfolding check_row add_row ◌>>=◌
  two_rows-Post t s w r g =
      (s, (r, checks-IsAnswered s (pass_if (all_kinds s) g.1.0) (pass_if (all_answered s) g.0)))

  clean_traffic-Post :
      (t : TestName) (seconds progress : ℕ) (w : World TestName)
      → Post WasClean (clean_traffic h t seconds progress w)
  unfolding clean_traffic
  clean_traffic-Post t seconds progress w =
      then-Post (λ s w'. IsRead h s) WasClean (run_traffic h seconds 0 progress) _ w
        (run_traffic-Post seconds 0 progress w) (two_rows-Post t)

  -- The row that `t_traffic` adds is no failure.
  t_traffic-Post : (a : Args) (w : World TestName) → Post WasClean (t_traffic h a w)
  unfolding t_traffic add_row
  t_traffic-Post a w =
      then-Post WasClean WasClean (clean_traffic h traffic a.seconds a.interval) _ w
        (clean_traffic-Post traffic a.seconds a.interval w) (λ s w' c g. c g.1)

  run_tests-Grows : (ts : List TestName) (a : Args) → Grows (run_tests h ts a)
  unfolding run_tests
  run_tests-Grows [] a = same-Grows tt
  run_tests-Grows (t ∷ ts) a = then-Grows (run_test-Grows h t a) (λ u. run_tests-Grows ts a)

  carry-Post :
      (m : Lb (Unit {0})) (w : World TestName) → Grows m → WasClean tt w → Post WasClean (m w)
  carry-Post m w g c = go (m w) (g.grows w)
    where
      go : (r : Result (Unit {0}) × World TestName) → IsLater w r.1 → Post WasClean r
      go (ok a, w') l = λ n. c (NoFail-later w w' l n)
      go (err x, w') l = tt

  pub run_tests-Post :
      (ts : List TestName) (a : Args) (w : World TestName)
      → Listed traffic ts
      → Post WasClean (run_tests h ts a w)
  unfolding run_tests run_test
  run_tests-Post [] a w l = absurd l
  run_tests-Post (t ∷ ts) a w (inl e) = rw e (
      then-Post WasClean WasClean (t_traffic h a) _ w (t_traffic-Post a w)
        (λ u w' c. carry-Post (run_tests h ts a) w' (run_tests-Grows ts a) c))
  run_tests-Post (t ∷ ts) a w (inr l) =
      skip-Post WasClean (run_test h t a) _ w (λ u w'. run_tests-Post ts a w' l)
