-- ===== src/Csum/Draw/Length.antt =====
-- `random_opts` gives exactly the bytes that were asked for.
use emac_zero.Base.{
  Bool-cases, [], ap, arith, inl, inr, length, length-append, length-take, ltb, refl, suc, zero, ℕ,
  ◌++◌, ◌+◌, ◌-◌, ◌<◌, ◌≡◌, ◌≤◌,
}
use emac_zero.Base.Predicates.{IsBytes}
use emac_zero.Base.Py.{Bytes}
use emac_zero.Csum.Draw.{Random, opts_loop, opts_round, rand_bytes, random_opts}

module _ (rng : Random) where
  open rng use {State, randrange-lt}

  pub length-rand_bytes : (n : ℕ) (s : State) → length (rand_bytes rng n s).0 ≡ n
  unfolding rand_bytes
  length-rand_bytes zero s = refl
  length-rand_bytes (suc n) s = ap suc (length-rand_bytes n _)

  pub rand_bytes-IsBytes : (n : ℕ) (s : State) → IsBytes (rand_bytes rng n s).0
  unfolding rand_bytes
  rand_bytes-IsBytes zero s = tt
  rand_bytes-IsBytes (suc n) s = (randrange-lt 256 s (omega arith), rand_bytes-IsBytes n _)

  opts_round_grows : (room : ℕ) (s : State) → 0 < length (opts_round rng room s).0
  unfolding opts_round
  opts_round_grows room s = ground arith

  opts_loop_fills :
      (fuel n : ℕ) (out : Bytes) (s : State)
      → n ≤ length out + fuel
      → n ≤ length (opts_loop rng fuel n out s).0
  unfolding opts_loop
  opts_loop_fills zero n out s h = omega arith
  opts_loop_fills (suc f) n out s h = elim (Bool-cases (ltb (length out) n)) [
    | inr full ↦ rw full (ground arith)
    | inl room ↦
        let more = opts_round rng (n - length out) s in
        rw room (
          opts_loop_fills f n (out ++ more.0) more.1
            (omega (arith, length-append out more.0, opts_round_grows (n - length out) s)))
  ]

  -- The loop ends with enough bytes, and the result has exactly `n`.
  pub length-random_opts : (s : State) (n : ℕ) → length (random_opts rng s n) ≡ n
  unfolding random_opts
  length-random_opts s n =
      omega
        (arith, length-take n (opts_loop rng n n [] s).0, opts_loop_fills n n [] s (omega arith))
