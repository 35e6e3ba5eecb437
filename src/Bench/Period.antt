-- ===== src/Bench/Period.antt =====
-- sim/cocotb/lib/mac_sys_b.py: clock_edges, and rgmii_tb.py: level and watch_edges. The half period is
-- the fraction num / den of simulator steps. A timer of 0 steps, which a half period of two steps or
-- more does not give, waits for nothing here.
pub mod Drift
pub mod Edges
use emac_zero.Base.{
  Bool, List, [], false, if◌then◌else◌, ltb, true, ◌||◌, suc, zero, ℕ, ◌%◌, ◌*◌, ◌+◌, ◌-◌, ◌/◌,
  ◌==◌, ◌∷◌,
}

-- round(Fraction(a, den)): to the nearest number, and to the even one of two.
unfoldable pub round_half_even : ℕ → ℕ → ℕ
round_half_even a den =
    let q = a / den in
    let r = 2 * (a % den) in
    if ltb r den then q else if ltb den r then q + 1 else if q % 2 == 0 then q else q + 1

-- The times of `count` edges from the loop's `n` and `t` on, each a timer after the one before.
unfoldable pub clock_loop : ℕ → ℕ → ℕ → ℕ → ℕ → List ℕ
clock_loop zero num den n t = []
clock_loop (suc count) num den n t =
    let nxt = round_half_even ((n + 1) * num) den in
    let waited = t + (nxt - t) in waited ∷ clock_loop count num den (n + 1) nxt

unfoldable pub clock_edges : ℕ → ℕ → ℕ → List ℕ
clock_edges count num den = clock_loop count num den 0 0

pub data Level : Type 0 where
  low : Level
  high : Level
  unknown : Level

pub data NetEdge : Type 0 where
  posedge : NetEdge
  negedge : NetEdge

unfoldable pub same_level : Level → Level → Bool
same_level low low = true
same_level high high = true
same_level unknown unknown = true
same_level a b = false

unfoldable pub is_low : Level → Bool
is_low low = true
is_low l = false

unfoldable pub is_high : Level → Bool
is_high high = true
is_high l = false

-- watch_edges, with `prev`: the calls of on_pos and on_neg.
unfoldable pub watch_edges : Level → List Level → List NetEdge
watch_edges prev [] = []
watch_edges prev (new ∷ news) =
    let same = watch_edges prev news in
    let moved = watch_edges new news in
    if same_level new prev
    then same
    else if is_low prev || is_high new
    then posedge ∷ moved
    else negedge ∷ moved
