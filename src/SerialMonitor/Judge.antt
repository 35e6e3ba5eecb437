-- ===== src/SerialMonitor/Judge.antt =====
-- The verdict of `run_monitor`: the checks in their order, each of which can clear `all_pass`.
use emac_zero.Base.{
  Bool, List, Option, [], false, if◌then◌else◌, leb, none, not, some, true, ℕ, ◌&&◌, ◌*◌, ◌+◌, ◌/◌,
  ◌==◌, ◌||◌, ◌∷◌,
}
use emac_zero.Base.Py.{Result, err, ok, system_exit}
use emac_zero.Base.Text.{Dict, Line, codes, lookup, same_text}
use emac_zero.SerialMonitor.Hex.{bmcr_good}
use emac_zero.SerialMonitor.Ports.{Port, find_arty_port, or_default, starts_with, upper}
use emac_zero.SerialMonitor.Report.{fresh_monitor, read_lines}

-- `check` without and with prefix_match
unfoldable pub check_result : Dict Line → Line → Line → Bool
check_result results name expected = elim (lookup name results) [
  | none ↦ false
  | some actual ↦ same_text (upper actual) (upper expected)
]

unfoldable pub check_prefix : Dict Line → Line → Line → Bool
check_prefix results name expected = elim (lookup name results) [
  | none ↦ false
  | some actual ↦ starts_with (upper expected) (upper actual)
]

unfoldable pub check_bmcr : Dict Line → Bool
check_bmcr results = elim (lookup (codes "BMCR") results) [ none ↦ false | some v ↦ bmcr_good v ]

unfoldable pub link_up : Dict Line → Bool
link_up results = elim (lookup (codes "LINK") results) [
  | none ↦ false
  | some v ↦ same_text v (codes "UP")
]

unfoldable pub check_tx : Dict Line → Bool
check_tx results = elim (lookup (codes "TX") results) [
  | none ↦ false
  | some v ↦ not (same_text v (codes "0000"))
]

unfoldable pub check_rx : Dict Line → Bool
check_rx results = elim (lookup (codes "RX") results) [
  | none ↦ false
  | some v ↦ not (starts_with (codes "TO") v) && not (same_text v (codes "0000"))
]

-- What the network gives: the replies to the two pings, and the neighbor table's entry.
pub record Network : Type 0 where
  pub received : ℕ
  pub mac : Option Line
  pub sustained : ℕ

unfoldable pub icmp_ok : Network → Bool
icmp_ok net = leb 18 net.received

-- A missing or empty entry counts as none.
unfoldable pub arp_ok : Network → Bool
arp_ok net = elim (or_default net.mac []) [
  | [] ↦ icmp_ok net
  | (c ∷ cs) ↦ same_text (upper (c ∷ cs)) (codes "02-00-00-00-00-01")
]

unfoldable pub sustained_ok : ℕ → Network → Bool
sustained_ok count net = (count == 0) || leb ((count * 9 + 9) / 10) net.sustained

-- Each check that fails clears `all_pass`.
unfoldable pub none_cleared : List Bool → Bool
none_cleared [] = true
none_cleared (c ∷ cs) = c && none_cleared cs

-- all_pass, with `count` for --sustained-ping-count; without a link the rest is not run, and it is
-- False already.
unfoldable pub all_pass : Dict Line → ℕ → Network → Bool
all_pass results count net = none_cleared (
    check_result results (codes "VER") (codes "0002454D")
    ∷ check_result results (codes "SCR") (codes "DEADBEEF")
    ∷ check_result results (codes "PHY1") (codes "2000")
    ∷ check_prefix results (codes "PHY2") (codes "5C9")
    ∷ check_bmcr results
    ∷ link_up results
    ∷ check_tx results
    ∷ check_rx results
    ∷ icmp_ok net
    ∷ arp_ok net
    ∷ sustained_ok count net
    ∷ [])

unfoldable pub run_monitor : List (Option Line) → ℕ → Network → Bool
run_monitor lines count net = all_pass (read_lines fresh_monitor lines).results count net

-- `main`, with the port that was asked for
unfoldable pub main_monitor : Option Line → List Port → List (Option Line) → ℕ → Network → Result ℕ
main_monitor asked ports lines count net =
    let port : Option Line = elim (or_default asked []) [
      | [] ↦ find_arty_port ports
      | (c ∷ cs) ↦ some (c ∷ cs)
    ] in
    elim (or_default port []) [
      | [] ↦ err system_exit
      | (c ∷ cs) ↦ ok (if run_monitor lines count net then 0 else 1)
    ]
