-- ===== src/Examples/Clocks.antt =====
-- Concrete inputs for the theorems on the delays and the clocks of the benches.
use emac_zero.Base.{List, [], arith, get_elem?, some, ℕ, ◌*◌, ◌+◌, ◌∷◌, ◌≡◌, ◌≤◌}
use emac_zero.Bench.Delay.{Timed, at, inertial_delay, settled}
use emac_zero.Bench.Delay.Assigned.{assign_delayed, inertial_delay-assign}
use emac_zero.Bench.Period.{clock_edges}
use emac_zero.Bench.Period.Drift.{clock_edges-near}

-- A change, a newer one within the delay, and a step that settles to the same value.
abbrev three_steps : List Timed
three_steps = at 100 1 ∷ at 105 0 ∷ at 140 0 ∷ []

inertial_delay-assign_example :
    inertial_delay 10 0 three_steps ≡ assign_delayed 10 (settled 0 three_steps)
inertial_delay-assign_example = inertial_delay-assign 10 0 three_steps

-- 4.0004 ns at a precision of 1 ps.
clock_edges-near_example :
    (t : ℕ) × (get_elem? (clock_edges 10 20002 5) 6 ≡ some t)
    × (2 * (5 * t) ≤ 2 * ((6 + 1) * 20002) + 5)
    × (2 * ((6 + 1) * 20002) ≤ 2 * (5 * t) + 5)
clock_edges-near_example = clock_edges-near 10 20002 5 6 (omega arith) (omega arith)
