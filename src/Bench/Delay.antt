-- ===== src/Bench/Delay.antt =====
-- sim/cocotb/lib/mac_sys_b.py: SettledWatch and InertialDelay. The settled values of the signal, one
-- for each time step with an edge, are a parameter; times are in the simulator's steps.
pub mod Assigned
use emac_zero.Base.{List, [], if◌then◌else◌, leb, ℕ, ◌++◌, ◌+◌, ◌==◌, ◌∷◌}

-- A value at a time.
pub record Timed : Type 0 where
  pub time : ℕ
  pub value : ℕ

abbrev pub at : ℕ → ℕ → Timed
at t v = record { time = t; value = v }

-- SettledWatch.run, with `last`: the calls of `cb`.
unfoldable pub settled : ℕ → List Timed → List Timed
settled last [] = []
settled last (c ∷ cs) =
    let same = settled last cs in
    let changed = settled c.value cs in if c.value == last then same else c ∷ changed

-- A task of `_apply` that waits for its time.
pub record Pending : Type 0 where
  pub due : ℕ
  pub gen : ℕ
  pub drives : ℕ

abbrev pub pending : ℕ → ℕ → ℕ → Pending
pending due gen v = record { due = due; gen = gen; drives = v }

pub record Inertial : Type 0 where
  pub gen : ℕ
  pub tasks : List Pending
  pub driven : List Timed

abbrev pub new_delay : Inertial
new_delay = record { gen = 0; tasks = []; driven = [] }

-- What the tasks that are due at `now` write: a task that is not of the last generation writes
-- nothing.
unfoldable pub applied : ℕ → ℕ → List Pending → List Timed
applied now gen [] = []
applied now gen (p ∷ ps) =
    let rest = applied now gen ps in
    if leb p.due now then (if p.gen == gen then at p.due p.drives ∷ rest else rest) else rest

unfoldable pub waiting : ℕ → List Pending → List Pending
waiting now [] = []
waiting now (p ∷ ps) = let rest = waiting now ps in if leb p.due now then rest else p ∷ rest

-- `_changed`. A timer ends before the signals of its time step have settled, so the tasks that are
-- due are applied first.
unfoldable pub changed : ℕ → Inertial → Timed → Inertial
changed delay s c = record {
  gen = s.gen + 1;
  tasks = waiting c.time s.tasks ++ pending (c.time + delay) (s.gen + 1) c.value ∷ [];
  driven = s.driven ++ applied c.time s.gen s.tasks;
}

-- The tasks that are left when the signal has no more changes.
unfoldable pub run_out : ℕ → List Pending → List Timed
run_out gen [] = []
run_out gen (p ∷ ps) =
    let rest = run_out gen ps in if p.gen == gen then at p.due p.drives ∷ rest else rest

unfoldable pub run_delay : ℕ → Inertial → List Timed → List Timed
run_delay delay s [] = s.driven ++ run_out s.gen s.tasks
run_delay delay s (c ∷ cs) = run_delay delay (changed delay s c) cs

-- InertialDelay.start: what `dst` is set to, and when.
unfoldable pub inertial_delay : ℕ → ℕ → List Timed → List Timed
inertial_delay delay first cs = run_delay delay new_delay (settled first cs)
