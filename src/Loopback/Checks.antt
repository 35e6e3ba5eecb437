-- ===== src/Loopback/Checks.antt =====
-- `Results`, and the checks on a window of traffic.
use emac_zero.Base.{Bool, if◌then◌else◌, ltb, not, ℕ, ◌&&◌, ◌==◌, ◌∷◌}
use emac_zero.Base.Py.{ok}
use emac_zero.Loopback.Board.{Lb, run_traffic}
use emac_zero.Loopback.Status.{Status, TestName, ok_valid}
use emac_zero.Session.{Host, Verdict, fail, pass, pure, ◌>>=◌, ◌>>◌}

-- `add`; the rows stand with the last one first.
unfoldable pub add_row : Verdict → TestName → Lb (Unit {0})
add_row verdict test w = (ok tt, record w { rows = (verdict, test) ∷ w.rows })

unfoldable pub check_row : TestName → Bool → Lb Bool
check_row test cond = do add_row (if cond then pass else fail) test; pure cond

-- The conditions of `clean_traffic`.
unfoldable pub all_kinds : Status → Bool
all_kinds s = ltb 0 s.tx_count && not (s.ok_arp == 0) && not (s.ok_icmp == 0) && not (s.ok_udp == 0)

unfoldable pub all_answered : Status → Bool
all_answered s = (ok_valid s == s.tx_count) && (s.bad == 0) && (s.timeouts == 0)

unfoldable pub clean_traffic : Host → TestName → ℕ → ℕ → Lb Status
clean_traffic h test seconds progress = do
  s ← run_traffic h seconds 0 progress
  check_row test (all_kinds s)
  check_row test (all_answered s)
  pure s
