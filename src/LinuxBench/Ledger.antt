-- ===== src/LinuxBench/Ledger.antt =====
-- `accounting`: the verdict on two snapshots, and the command that it runs on the board. The notes are
-- text and are left out.
use emac_zero.Base.{
  Bool, List, Option, [], false, get_or, if◌then◌else◌, leb, none, some, suc, true, zero, ℕ, ◌&&◌,
  ◌+◌, ◌-◌, ◌==◌, ◌||◌, ◌∷◌,
}
use emac_zero.Base.Text.{Line, codes, lookup}
use emac_zero.Base.Py.{Result, ok, ◌>>=◌}
use emac_zero.LinuxBench.Console.{Answer, board_run}
use emac_zero.LinuxBench.Snapshot.{Snap, negsuc, pos, ℤ}

abbrev pub required : List Line
required =
    codes "hw_tx_frames"
    ∷ codes "hw_rx_frames"
    ∷ codes "hw_rx_errors"
    ∷ codes "hw_rx_err_overflow"
    ∷ codes "hw_rx_err_csum"
    ∷ codes "hw_rx_drop_fifo_full"
    ∷ codes "if_tx_packets"
    ∷ codes "if_rx_packets"
    ∷ codes "if_rx_dropped"
    ∷ codes "if_rx_errors"
    ∷ codes "if_rx_length_errors"
    ∷ codes "dmesg_lines"
    ∷ []

pub data Agreement : Type 0 where
  agree differ invalid : Agreement

-- m - n of naturals
abbrev pub diff : ℕ → ℕ → ℤ
diff m n = if leb n m then pos (m - n) else negsuc (n - m - 1)

-- The parts of an integer above and below 0.
abbrev pub above : ℤ → ℕ
above (pos n) = n
above (negsuc n) = 0

abbrev pub below : ℤ → ℕ
below (pos n) = 0
below (negsuc n) = suc n

infixl 60 ◌-ℤ◌
abbrev pub ◌-ℤ◌ : ℤ → ℤ → ℤ
a -ℤ b = diff (above a + below b) (below a + above b)

abbrev pub is_negative : ℤ → Bool
is_negative (pos n) = false
is_negative (negsuc n) = true

abbrev pub equal_ℤ : ℤ → ℤ → Bool
equal_ℤ (pos m) (pos n) = m == n
equal_ℤ (negsuc m) (negsuc n) = m == n
equal_ℤ (pos m) (negsuc n) = false
equal_ℤ (negsuc m) (pos n) = false

-- after[k] - before[k], if both have it
unfoldable pub delta_of : Snap → Snap → Line → Option ℤ
delta_of before after k = elim (lookup k before) [
  | none ↦ none
  | some b ↦ elim (lookup k after) [ none ↦ none | some a ↦ some (a -ℤ b) ]
]

-- delta = {k: after[k] - before[k] for k in REQUIRED}, where none is missing
unfoldable pub deltas : Snap → Snap → List Line → Option (List ℤ)
deltas before after [] = some []
deltas before after (k ∷ ks) =
    let rest = deltas before after ks in
    elim (delta_of before after k) [
      | none ↦ none
      | some d ↦ elim rest [ none ↦ none | some ds ↦ some (d ∷ ds) ]
    ]

unfoldable pub any_negative : List ℤ → Bool
any_negative [] = false
any_negative (d ∷ ds) = is_negative d || any_negative ds

abbrev pub nth : List ℤ → ℕ → ℤ
nth ds i = get_or ds i (pos 0)

-- The comparison of the counts, by their places in `required`.
unfoldable pub judge : List ℤ → Agreement
judge ds =
    let mac_tx = nth ds 0 in
    let if_tx = nth ds 6 in
    let mac_rx = nth ds 1 in
    let bad = nth ds 2 in
    let if_rx = nth ds 7 in
    if equal_ℤ mac_tx if_tx && equal_ℤ (mac_rx -ℤ bad) if_rx then agree else differ

abbrev pub is_positive : ℤ → Bool
is_positive (pos zero) = false
is_positive (pos (suc n)) = true
is_positive (negsuc n) = false

-- The kernel's messages, where there are new lines; `answer` is what the board gives on dmesg.
unfoldable pub kernel_messages : ℤ → Answer → Result (List Line)
kernel_messages new_lines answer = if is_positive new_lines then board_run answer else ok []

unfoldable pub accounting : Snap → Snap → Answer → Result Agreement
accounting before after answer = elim (deltas before after required) [
  | none ↦ ok invalid
  | some ds ↦
      if any_negative ds
      then ok invalid
      else kernel_messages (nth ds 11) answer >>= λ messages. ok (judge ds)
]
