-- ===== src/Csum/Draw.antt =====
-- `random.Random`, which the repository uses and does not implement, as a parameter; and
-- `random_opts` of sim/cocotb/lib/csum.py, which draws from it.
pub mod Length
use emac_zero.Base.{
  List, [], get_or, if◌then◌else◌, length, ltb, min, suc, take, zero, ℕ, ◌++◌, ◌-◌, ◌<◌, ◌==◌, ◌||◌,
  ◌∷◌, ◌≤◌,
}
use emac_zero.Base.Py.{Bytes}
use emac_zero.Csum.Opts.{lsrr, ssrr}

-- The laws are the documented ranges of the results.
pub record Random : Type 1 where
  pub State : Type 0
  pub seeded : ℕ → State
  -- rng.randrange(n)
  pub randrange : ℕ → State → ℕ × State
  -- rng.randint(a, b)
  pub randint : ℕ → ℕ → State → ℕ × State
  -- the index of rng.choices(…, weights)[0], by the weights times ten
  pub choices : List ℕ → State → ℕ × State
  pub randrange-lt : (n : ℕ) (s : State) → 0 < n → (randrange n s).0 < n
  pub randint-ge : (a b : ℕ) (s : State) → a ≤ b → a ≤ (randint a b s).0
  pub randint-le : (a b : ℕ) (s : State) → a ≤ b → (randint a b s).0 ≤ b

module _ (rng : Random) where
  open rng use {State, randrange, randint, choices}

  -- bytes(rng.randrange(256) for _ in range(n))
  unfoldable pub rand_bytes : ℕ → State → Bytes × State
  rand_bytes zero s = ([], s)
  rand_bytes (suc n) s =
      let (b, s') = randrange 256 s in let (bs, s'') = rand_bytes n s' in (b ∷ bs, s'')

  -- rng.choice([…]) of numbers
  pick : List ℕ → State → ℕ × State
  pick xs s = let (i, s') = randrange (length xs) s in (get_or xs i 0, s')

  -- One round of the loop: what it appends, with `room` bytes left.
  opts_round : ℕ → State → Bytes × State
  unfolding rand_bytes pick
  opts_round room s =
      let (k, s1) = choices (30 ∷ 10 ∷ 40 ∷ 10 ∷ 3 ∷ []) s in
      if (k == 0) || ltb room 2
      then (1 ∷ [], s1)
      else if k == 1
      then (let (junk, s2) = rand_bytes (room - 1) s1 in (0 ∷ junk, s2))
      else if k == 4
      then (let (t, s2) = pick (7 ∷ 68 ∷ 130 ∷ []) s1 in
          let (n, s3) = randint 0 1 s2 in (t ∷ n ∷ [], s3))
      else (let (n, s2) = randint 2 (min room 11) s1 in
          let (t, s3) =
            if k == 3 then pick (lsrr ∷ ssrr ∷ []) s2 else pick (7 ∷ 68 ∷ 130 ∷ 148 ∷ []) s2 in
          let (bs, s4) = rand_bytes (n - 2) s3 in (t ∷ n ∷ bs, s4))

  -- while len(out) < n; every round appends at least one byte, so `n` rounds are enough.
  opts_loop : ℕ → ℕ → Bytes → State → Bytes × State
  opts_loop zero n out s = (out, s)
  opts_loop (suc fuel) n out s =
      let more = opts_round (n - length out) s in
      let rest = opts_loop fuel n (out ++ more.0) more.1 in
      if ltb (length out) n then rest else (out, s)

  unfoldable pub random_opts : State → ℕ → Bytes
  unfolding opts_loop opts_round
  random_opts s n = take n (opts_loop n n [] s).0
