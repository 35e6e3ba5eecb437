-- ===== src/SerialMonitor/Passes.antt =====
-- What a passing verdict says.
use emac_zero.Base.{
  Bool, List, Option, [], ap, arith, both_true, false, inl, inr, none, refl, some, true, ℕ, ◌*◌,
  ◌-◌, ◌∙◌, ◌∷◌, ◌≡◌, ◌≤◌, ◌⊎◌,
}
use emac_zero.Base.Predicates.{All}
use emac_zero.Base.Text.{Dict, Line, codes, lookup, same_text, same_text_iff}
use emac_zero.SerialMonitor.Judge.{
  Network, all_pass, arp_ok, icmp_ok, link_up, none_cleared, run_monitor, sustained_ok,
}
use emac_zero.SerialMonitor.Ports.{or_default, upper}
use emac_zero.SerialMonitor.Report.{fresh_monitor, read_lines}

none_cleared-All : (checks : List Bool) → none_cleared checks ≡ true → All (λ b. b ≡ true) checks
unfolding none_cleared
none_cleared-All [] h = tt
none_cleared-All (c ∷ cs) h =
    let (p, q) = both_true c (none_cleared cs) h in (p, none_cleared-All cs q)

link_up-text :
    (results : Dict Line)
    → link_up results ≡ true
    → lookup (codes "LINK") results ≡ some (codes "UP")
unfolding link_up
link_up-text results h = go (lookup (codes "LINK") results) refl h
  where
    go :
        (o : Option Line)
        → lookup (codes "LINK") results ≡ o
        → elim o [ none ↦ false | some v ↦ same_text v (codes "UP") ] ≡ true
        → lookup (codes "LINK") results ≡ some (codes "UP")
    go none e k = cc
    go (some v) e k = e ∙ ap some ((same_text_iff v (codes "UP")).0 k)

arp_ok-text :
    (net : Network)
    → arp_ok net ≡ true
    → (or_default net.mac [] ≡ []) ⊎ (upper (or_default net.mac []) ≡ codes "02-00-00-00-00-01")
unfolding arp_ok
arp_ok-text net h = go (or_default net.mac []) refl h
  where
    go :
        (m : Line)
        → or_default net.mac [] ≡ m
        → elim m [
          | [] ↦ icmp_ok net
          | (c ∷ cs) ↦ same_text (upper (c ∷ cs)) (codes "02-00-00-00-00-01")
        ]
          ≡ true
        → (or_default net.mac [] ≡ []) ⊎ (upper (or_default net.mac []) ≡ codes "02-00-00-00-00-01")
    go [] e k = inl e
    go (c ∷ cs) e k =
        inr (ap upper e ∙ (same_text_iff (upper (c ∷ cs)) (codes "02-00-00-00-00-01")).0 k)

sustained_ok-lost :
    (count : ℕ) (net : Network)
    → sustained_ok count net ≡ true
    → 10 * (count - net.sustained) ≤ count
unfolding sustained_ok
sustained_ok-lost count net h = ground arith

icmp_ok-received : (net : Network) → icmp_ok net ≡ true → 18 ≤ net.received
unfolding icmp_ok
icmp_ok-received net h = ground arith

-- If the verdict passes, the link is up, at least 18 of the 20 replies came, and a sustained ping of
-- `count` lost at most a tenth: ten times the lost replies are no more than `count`. The neighbor
-- table holds the address of the board, or no entry.
pub run_monitor-passes :
    (lines : List (Option Line)) (count : ℕ) (net : Network)
    → run_monitor lines count net ≡ true
    → (lookup (codes "LINK") (read_lines fresh_monitor lines).results ≡ some (codes "UP"))
      × (18 ≤ net.received)
      × (10 * (count - net.sustained) ≤ count)
      × ((or_default net.mac [] ≡ []) ⊎ (upper (or_default net.mac []) ≡ codes "02-00-00-00-00-01"))
unfolding run_monitor all_pass
run_monitor-passes lines count net h =
    let results = (read_lines fresh_monitor lines).results in
    let c = (none_cleared-All _ h).1.1.1.1.1 in
    (
      link_up-text results c.0,
      icmp_ok-received net c.1.1.1.0,
      sustained_ok-lost count net c.1.1.1.1.1.0,
      arp_ok-text net c.1.1.1.1.0,
    )
