-- ===== src/Examples/Linux.antt =====
-- The theorem on the accounting of the Linux bench at two snapshots.
use emac_zero.Base.{List, [], if◌then◌else◌, map, refl, ℕ, ◌+◌, ◌↔◌, ◌∷◌, ◌≡◌, ◌≤◌, ◌⊎◌}
use emac_zero.Base.Predicates.{All}
use emac_zero.Base.Py.{ok}
use emac_zero.Base.Text.{Line, codes, lookup, same_text}
use emac_zero.LinuxBench.Agreement.{accounting-agree_iff}
use emac_zero.LinuxBench.Console.{Answer, board_run, shell}
use emac_zero.LinuxBench.Ledger.{accounting, agree, required}
use emac_zero.LinuxBench.Snapshot.{Snap, pos}

abbrev none_yet : Line → ℕ
none_yet k = 0

abbrev counted : Line → ℕ
unfolding same_text
counted k = if same_text k (codes "hw_rx_errors") then 0 else 7

abbrev first_snap : Snap
first_snap = map (λ k. (k, pos (none_yet k))) required

abbrev second_snap : Snap
second_snap = map (λ k. (k, pos (counted k))) required

-- The answer of ssh to dmesg.
abbrev messages : Answer
messages = shell (ok (0, codes "eth1: link up" ∷ []))

accounting-agree_iff_example : (accounting first_snap second_snap messages ≡ ok agree) ↔ (
    All (λ k. none_yet k ≤ counted k) required
    × (counted (codes "hw_tx_frames") + 0 ≡ counted (codes "if_tx_packets") + 0)
    × (counted (codes "hw_rx_frames") + 0 + 0
        ≡ counted (codes "if_rx_packets") + counted (codes "hw_rx_errors") + 0)
    × ((counted (codes "dmesg_lines") ≡ 0) ⊎ ((out : List Line) × (board_run messages ≡ ok out))))
unfolding lookup same_text
accounting-agree_iff_example =
    accounting-agree_iff first_snap second_snap none_yet counted messages (
      (refl, refl),
      (
        (refl, refl),
        (
          (refl, refl),
          (
            (refl, refl),
            (
              (refl, refl),
              (
                (refl, refl),
                (
                  (refl, refl),
                  (
                    (refl, refl),
                    ((refl, refl), ((refl, refl), ((refl, refl), ((refl, refl), tt)))),
                  ),
                ),
              ),
            ),
          ),
        ),
      ),
    )
