-- ===== src/Examples/Monitor.antt =====
-- The theorems on the serial monitor, at the lines of a good board.
use emac_zero.Base.{List, Option, [], none, refl, some, true, ◌*◌, ◌-◌, ◌∷◌, ◌≡◌, ◌≤◌, ◌⊎◌}
use emac_zero.Base.Text.{Line, codes, insert, is_space, lookup, lstrip, rstrip, same_text, strip}
use emac_zero.SerialMonitor.Hex.{
  bit_set, bmcr_good, bmcr_value, hex_digit, hex_digits, hex_number, parse_hex,
}
use emac_zero.SerialMonitor.Judge.{
  Network, all_pass, arp_ok, check_bmcr, check_prefix, check_result, check_rx, check_tx, icmp_ok,
  link_up, none_cleared, run_monitor, sustained_ok,
}
use emac_zero.SerialMonitor.Passes.{run_monitor-passes}
use emac_zero.SerialMonitor.Ports.{lower, or_default, starts_with, upper}
use emac_zero.SerialMonitor.Report.{find_prefix, fresh_monitor, read_lines, step_line, take_line}

abbrev good_lines : List (Option Line)
good_lines =
    some (codes "VER: 0002454d")
    ∷ some (codes "")
    ∷ some (codes "SCR: DEADBEEF")
    ∷ some (codes "PHY1: 2000 ")
    ∷ some (codes "PHY2: 5C90")
    ∷ some (codes "BMCR: 1000")
    ∷ some (codes "LINK: UP")
    ∷ some (codes "TX: 0001")
    ∷ some (codes "RX: 0002")
    ∷ some (codes "DONE")
    ∷ []

abbrev good_network : Network
good_network = record { received = 19; mac = none; sustained = 27 }

good : run_monitor good_lines 30 good_network ≡ true
unfolding run_monitor all_pass none_cleared check_result check_prefix check_bmcr link_up check_tx
    check_rx icmp_ok arp_ok sustained_ok read_lines step_line take_line find_prefix starts_with
    lookup insert same_text strip lstrip rstrip is_space upper bmcr_good bmcr_value bit_set
    parse_hex hex_number hex_digits hex_digit lower
good = refl

run_monitor-passes_example :
    (lookup (codes "LINK") (read_lines fresh_monitor good_lines).results ≡ some (codes "UP"))
    × (18 ≤ 19)
    × (10 * (30 - 27) ≤ 30)
    × ((or_default good_network.mac [] ≡ [])
        ⊎ (upper (or_default good_network.mac []) ≡ codes "02-00-00-00-00-01"))
run_monitor-passes_example = run_monitor-passes good_lines 30 good_network good
