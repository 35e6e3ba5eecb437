-- ===== src/Throughput.antt =====
-- fpga/arty_a7/scripts/udp_throughput.py: the samples of the board's counters, their changes, and the
-- exit code. The sender, the serial port and the clock are parameters: what they give.
pub mod Telescope
use emac_zero.Base.{
  Bool, List, Option, [], drop, if◌then◌else◌, leb, length, none, some, take, ℕ, ◌&&◌, ◌*◌, ◌+◌,
  ◌-◌, ◌==◌, ◌||◌, ◌∷◌,
}
use emac_zero.Base.Text.{Dict, Line, codes, insert, lookup, lstrip, same_text, strip}
use emac_zero.LinuxBench.Ledger.{diff}
use emac_zero.LinuxBench.Snapshot.{pos, ℤ}
use emac_zero.Mii.{sample}
use emac_zero.SerialMonitor.Hex.{hex_digit}
use emac_zero.SerialMonitor.Ports.{Port, ends_with_b, first_port, or_default, starts_with}

-- find_arty_port
unfoldable pub find_channel_b : List Port → Option Line
find_channel_b ports =
    elim (first_port
      (λ p. (or_default p.vid 0 == 0x0403) && ends_with_b (or_default p.serial_number [])) ports) [
        | some d ↦ some d
        | none ↦ first_port (λ p. or_default p.vid 0 == 0x0403) ports
      ]

-- The keys that LINE_RE takes.
unfoldable pub is_key : Line → Bool
is_key key =
    same_text key (codes "RXF")
    || same_text key (codes "RXB")
    || same_text key (codes "RXE")
    || same_text key (codes "OVF")

-- Hex digits without anything between them.
unfoldable pub plain_hex : ℕ → Line → Option ℕ
plain_hex acc [] = some acc
plain_hex acc (c ∷ cs) = elim (hex_digit c) [ none ↦ none | some d ↦ plain_hex (acc * 16 + d) cs ]

-- LINE_RE.match, with the key and the value of its groups
unfoldable pub match_line : Line → Option (Line × ℕ)
match_line line =
    let key = take 3 line in
    let digits = lstrip (drop 4 line) in
    if is_key key
      && starts_with (codes ":") (drop 3 line)
      && leb 1 (length digits)
      && leb (length digits) 8
    then elim (plain_hex 0 digits) [ none ↦ none | some v ↦ some (key, v) ]
    else none

-- A sample: its time, its key and its value.
pub record Sample : Type 0 where
  pub time : ℕ
  pub key : Line
  pub value : ℕ

-- The lines that `monitor_uart` reads, each with its time, until a SerialException or the end.
unfoldable pub monitor_uart : List (Option (ℕ × Line)) → List Sample
monitor_uart [] = []
monitor_uart (none ∷ lines) = []
monitor_uart (some (t, line) ∷ lines) =
    let rest = monitor_uart lines in
    elim (match_line (strip line)) [
      | none ↦ rest
      | some (k, v) ↦ record { time = t; key = k; value = v } ∷ rest
    ]

-- A sample and its change.
pub record Change : Type 0 where
  pub sample : Sample
  pub delta : ℤ

-- v - last[key] if key in last else 0
unfoldable pub change_of : Dict ℕ → Sample → ℤ
change_of last s = elim (lookup s.key last) [ none ↦ pos 0 | some v ↦ diff s.value v ]

-- The loop of `deltas`.
unfoldable pub deltas_from : Dict ℕ → List Sample → List Change
deltas_from last [] = []
deltas_from last (s ∷ samples) =
    record { sample = s; delta = change_of last s }
    ∷ deltas_from (insert s.key s.value last) samples

unfoldable pub window_deltas : List Sample → List Change
window_deltas samples = deltas_from [] samples

-- final[k] = v, and the comprehension of `base`
unfoldable pub last_values : Dict ℕ → List Sample → Dict ℕ
last_values last [] = last
last_values last (s ∷ samples) = last_values (insert s.key s.value last) samples

-- samples[-8:]
unfoldable pub last_eight : List Sample → List Sample
last_eight samples = drop (length samples - 8) samples

-- The exit code of `main`, from the samples of the warm-up and those of the whole run.
unfoldable pub overflow_code : List Sample → List Sample → ℕ
overflow_code warmup samples =
    let base = last_values [] (last_eight warmup) in
    elim (lookup (codes "OVF") (last_values [] samples)) [
      | none ↦ 0
      | some v ↦ if v == or_default (lookup (codes "OVF") base) 0 then 0 else 1
    ]
