-- ===== src/Bench/Delay/Assigned.antt =====
-- That the delay of mac_sys_b.py is Verilog's inertial delay.
use emac_zero.Base.{
  Bool, ==-self, Bool-cases, List, [], ap, arith, if◌then◌else◌, inl, inr, leb, refl, true, false,
  ℕ, ◌++◌, ◌+◌, ◌<◌, ◌==◌, ◌∙◌, ◌∷◌, ◌≡◌,
}
use emac_zero.Base.Predicates.{All}
use emac_zero.Bench.Delay.{
  Pending, Timed, applied, at, changed, inertial_delay, new_delay, pending, run_delay, run_out,
  settled, waiting,
}
use mathlib.Core.List.{append_assoc}

-- `assign #delay dst = src`: a change comes through `delay` later, if no newer one comes before.
unfoldable pub assign_delayed : ℕ → List Timed → List Timed
assign_delayed delay [] = []
assign_delayed delay (c ∷ []) = at (c.time + delay) c.value ∷ []
assign_delayed delay (c ∷ n ∷ cs) =
    let rest = assign_delayed delay (n ∷ cs) in
    if leb (c.time + delay) n.time then at (c.time + delay) c.value ∷ rest else rest

-- A newer change has cancelled the task.
abbrev IsStale : ℕ → List Pending → Type 0
IsStale gen = All (λ p. p.gen < gen)

never : (n m : ℕ) → n < m → (n == m) ≡ false
never n m l = ground (arith, l)

waiting-IsStale : (now gen : ℕ) (ps : List Pending) → IsStale gen ps → IsStale gen (waiting now ps)
unfolding waiting
waiting-IsStale now gen [] s = s
waiting-IsStale now gen (p ∷ ps) (l, s) =
    let rest = waiting-IsStale now gen ps s in
    elim (Bool-cases (leb p.due now)) [ inl y ↦ rw y rest | inr n ↦ rw n (l, rest) ]

applied-last :
    (now gen due v : ℕ) (ps : List Pending)
    → IsStale gen ps
    → applied now gen (ps ++ pending due gen v ∷ []) ≡ (if leb due now then at due v ∷ [] else [])
unfolding applied
applied-last now gen due v [] s = rw (==-self gen) refl
applied-last now gen due v (p ∷ ps) (l, s) =
    let ih = applied-last now gen due v ps s in
    elim (Bool-cases (leb p.due now)) [ inl y ↦ rw (y, never p.gen gen l) ih | inr n ↦ rw n ih ]

run_out-last :
    (gen due v : ℕ) (ps : List Pending)
    → IsStale gen ps
    → run_out gen (ps ++ pending due gen v ∷ []) ≡ at due v ∷ []
unfolding run_out
run_out-last gen due v [] s = rw (==-self gen) refl
run_out-last gen due v (p ∷ ps) (l, s) = rw (never p.gen gen l) (run_out-last gen due v ps s)

older :
    (gen due v : ℕ) (ps : List Pending)
    → IsStale gen ps
    → IsStale (gen + 1) (ps ++ pending due gen v ∷ [])
older gen due v [] s = (omega arith, tt)
older gen due v (p ∷ ps) (l, s) = (omega (arith, l), older gen due v ps s)

-- One change waits, and all before it are cancelled.
run_delay-last :
    (delay t v gen : ℕ) (ps : List Pending) (out cs : List Timed)
    → IsStale gen ps
    → run_delay delay
        (record { gen = gen; tasks = ps ++ pending (t + delay) gen v ∷ []; driven = out })
        cs
      ≡ out ++ assign_delayed delay (at t v ∷ cs)
unfolding run_delay assign_delayed changed
run_delay-last delay t v gen ps out [] s = ap (λ x. out ++ x) (run_out-last gen (t + delay) v ps s)
run_delay-last delay t v gen ps out (c ∷ cs) s =
    let tasks = ps ++ pending (t + delay) gen v ∷ [] in
    let ih =
      run_delay-last delay c.time c.value (gen + 1) (waiting c.time tasks)
        (out ++ applied c.time gen tasks) cs
        (waiting-IsStale c.time (gen + 1) tasks (older gen (t + delay) v ps s)) in
    ih
    ∙ ap (λ x. (out ++ x) ++ assign_delayed delay (c ∷ cs))
        (applied-last c.time gen (t + delay) v ps s)
    ∙ joined (leb (t + delay) c.time) out (at (t + delay) v) (assign_delayed delay (c ∷ cs))
  where
    joined :
        (b : Bool) (xs : List Timed) (x : Timed) (ys : List Timed)
        → (xs ++ (if b then x ∷ [] else [])) ++ ys ≡ xs ++ (if b then x ∷ ys else ys)
    joined true xs x ys = append_assoc xs (x ∷ []) ys
    joined false xs x ys = append_assoc xs [] ys

-- Tasks and generations give Verilog's inertial delay: `dst` takes each settled change of `src` after
-- the delay, except for those that a newer change follows within less than the delay.
pub inertial_delay-assign :
    (delay first : ℕ) (cs : List Timed)
    → inertial_delay delay first cs ≡ assign_delayed delay (settled first cs)
unfolding inertial_delay run_delay changed waiting applied assign_delayed run_out
inertial_delay-assign delay first cs = from_new (settled first cs)
  where
    from_new : (ds : List Timed) → run_delay delay new_delay ds ≡ assign_delayed delay ds
    from_new [] = refl
    from_new (c ∷ ds) = run_delay-last delay c.time c.value 1 [] [] ds tt
