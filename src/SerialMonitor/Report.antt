-- ===== src/SerialMonitor/Report.antt =====
-- The loop of `run_monitor` that reads the lines of the board.
use emac_zero.Base.{
  Bool, List, Option, [], drop, false, if◌then◌else◌, length, none, some, true, ◌||◌, ◌∷◌,
}
use emac_zero.Base.Text.{Dict, Line, codes, insert, same_text, strip}
use emac_zero.SerialMonitor.Ports.{starts_with}

-- The names of the results, each with the prefix of its line.
abbrev pub prefixes : List (Line × Line)
prefixes =
    (codes "VER: ", codes "VER")
    ∷ (codes "SCR: ", codes "SCR")
    ∷ (codes "PHY1: ", codes "PHY1")
    ∷ (codes "PHY2: ", codes "PHY2")
    ∷ (codes "BMCR: ", codes "BMCR")
    ∷ (codes "LINK: ", codes "LINK")
    ∷ (codes "TX: ", codes "TX")
    ∷ (codes "RX: ", codes "RX")
    ∷ []

-- The locals of the loop.
pub record Monitor : Type 0 where
  pub results : Dict Line
  pub done : Bool
  pub ping_started : Bool

abbrev pub fresh_monitor : Monitor
fresh_monitor = record { results = []; done = false; ping_started = false }

-- The first prefix of the chain that the line has: the name, and the rest of the line.
unfoldable pub find_prefix : List (Line × Line) → Line → Option (Line × Line)
find_prefix [] line = none
find_prefix ((prefix, name) ∷ more) line =
    let rest = find_prefix more line in
    if starts_with prefix line then some (name, drop (length prefix) line) else rest

-- One stripped line; a line of TX starts the ping.
unfoldable pub take_line : Monitor → Line → Monitor
take_line m line = elim (find_prefix prefixes line) [
  | some (name, value) ↦ record m {
    results = insert name value m.results;
    ping_started = m.ping_started || same_text name (codes "TX");
  }
  | none ↦ if same_text line (codes "DONE") then record m { done = true } else m
]

-- `if not line: continue`
unfoldable pub step_line : Monitor → Line → Monitor
step_line m [] = m
step_line m (c ∷ cs) = take_line m (c ∷ cs)

-- What `readline` gives in turn: a line, or a SerialException; the list ends at the timeout.
unfoldable pub read_lines : Monitor → List (Option Line) → Monitor
read_lines m [] = m
read_lines m (none ∷ lines) = m
read_lines m (some line ∷ lines) =
    let m' = step_line m (strip line) in
    let rest = read_lines m' lines in if m'.done then m' else rest
