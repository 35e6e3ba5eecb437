-- ===== src/Selftest/Stalls.antt =====
-- What the PAUSE checks tell apart.
use emac_zero.Base.{
  Bool, Bool-cases, List, [], arith, false, inl, inr, refl, true, ℕ, ◌*◌, ◌+◌, ◌<◌, ◌∷◌, ◌≡◌, ◌⊎◌,
}
use emac_zero.Base.Predicates.{All}
use emac_zero.Selftest.Pause.{
  XonRun, below_high, can_tell, choose_attempt, frame_ns, full_ns, gap_ns, honored_checks,
  ignored_checks, is_valid, last_start, min_quanta, near_pause, no_stall, pause_fails,
  quanta_allowed, quantum_ns, xon_checks,
}
use emac_zero.Selftest.Results.{RunStatus, Speed, count_fails, fast, gigabit, slow}

-- A pause that `main` allows is longer than four of the longest frames.
pub quanta_long :
    (speed : Speed) (quanta : ℕ)
    → quanta_allowed quanta ≡ true
    → 4 * frame_ns speed < quanta * quantum_ns speed
unfolding quanta_allowed min_quanta frame_ns quantum_ns
quanta_long gigabit quanta h = ground arith
quanta_long fast quanta h = ground arith
quanta_long slow quanta h = ground arith

-- No longest stall passes both for a pause that was honored and for one that was ignored.
pub near_pause-no_stall :
    (speed : Speed) (quanta gap : ℕ)
    → quanta_allowed quanta ≡ true
    → near_pause speed quanta gap ≡ true
    → no_stall speed gap ≡ false
unfolding near_pause no_stall
near_pause-no_stall speed quanta gap h k = let long = quanta_long speed quanta h in ground arith

no_fails : (checks : List Bool) → count_fails checks ≡ 0 → All (λ b. b ≡ true) checks
unfolding count_fails
no_fails [] e = tt
no_fails (true ∷ checks) e = (refl, no_fails checks (omega arith))
no_fails (false ∷ checks) e = absurd (omega arith)

-- The checks that bear on how long the transmitter stalled in the runs of an honored and an ignored
-- pause.
stalls_apart :
    (speed : Speed) (quanta : ℕ) (honored ignored : RunStatus)
    → quanta_allowed quanta ≡ true
    → All (λ b. b ≡ true) (honored_checks speed quanta honored)
    → All (λ b. b ≡ true) (ignored_checks speed ignored)
    → gap_ns ignored < gap_ns honored
unfolding honored_checks ignored_checks near_pause no_stall
stalls_apart speed quanta honored ignored h a b =
    let long = quanta_long speed quanta h in
    let near = a.1.1.0 in let short = b.1.1.0 in ground arith

told_apart :
    (speed : Speed) (x : XonRun) (gap : ℕ)
    → below_high speed x gap ≡ true
    → can_tell speed x ≡ true
    → gap + x.first.1 + 2 * frame_ns speed < last_start x.first x.more + full_ns speed
unfolding below_high can_tell
told_apart speed x gap high t = ground arith

-- What the checks on XON say of the attempt.
xon_told :
    (speed : Speed) (x : XonRun)
    → All (λ b. b ≡ true) (xon_checks speed x)
    → (is_valid speed x ≡ true)
      × ((can_tell speed x ≡ false)
          ⊎ (gap_ns x.final + x.first.1 + 2 * frame_ns speed
              < last_start x.first x.more + full_ns speed))
unfolding xon_checks
xon_told speed x c =
    let high = c.1.1.1.1.0 in
    elim (Bool-cases (can_tell speed x)) [
      | inr f ↦ (c.1.1.0, inl f)
      | inl t ↦ (c.1.1.0, inr (told_apart speed x (gap_ns x.final) high t))
    ]

-- If `pause_tests` counts no failure, with quanta that `main` allows, then the transmitter stalled
-- longer in the run that honored the pause than in the run that ignored it, the attempt that was
-- judged for XON is one in which each pause took effect before the one before it could run out, and
-- the times of that attempt cannot tell a Q = 0 frame from the pause running out, or its stall was
-- shorter than the pause running out gives.
pub pause_fails-zero :
    (speed : Speed) (quanta : ℕ) (honored ignored : RunStatus) (runs : ℕ → XonRun)
    → quanta_allowed quanta ≡ true
    → pause_fails speed quanta honored ignored runs ≡ 0
    → let x = choose_attempt speed runs 2 1 in
      (gap_ns ignored < gap_ns honored)
      × (is_valid speed x ≡ true)
      × ((can_tell speed x ≡ false)
          ⊎ (gap_ns x.final + x.first.1 + 2 * frame_ns speed
              < last_start x.first x.more + full_ns speed))
unfolding pause_fails
pause_fails-zero speed quanta honored ignored runs h e =
    let x = choose_attempt speed runs 2 1 in
    let a = no_fails (honored_checks speed quanta honored) (omega arith) in
    let b = no_fails (ignored_checks speed ignored) (omega arith) in
    let c = xon_told speed x (no_fails (xon_checks speed x) (omega arith)) in
    (stalls_apart speed quanta honored ignored h a b, c.0, c.1)
