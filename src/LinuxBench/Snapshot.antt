-- ===== src/LinuxBench/Snapshot.antt =====
-- `snapshot`: the parsing of "name: value" lines.
use emac_zero.Base.{
  List, Option, [], if◌then◌else◌, none, some, suc, zero, ℕ, ◌*◌, ◌+◌, ◌-◌, ◌==◌, ◌∷◌,
}
use emac_zero.Base.Py.{Result, err, ok, value_error, ◌>>=◌}
use emac_zero.Base.Text.{Dict, Line, insert, isdigit, strip}

-- Integers, over the native numbers.
pub data ℤ : Type 0 where
  pos : ℕ → ℤ
  negsuc : ℕ → ℤ

-- line.partition(":"), where there is a colon
unfoldable pub partition : Line → Option (Line × Line)
partition [] = none
partition (c ∷ cs) =
    let rest = partition cs in
    if c == 58
    then some ([], cs)
    else elim rest [ none ↦ none | some (name, value) ↦ some (c ∷ name, value) ]

-- s.lstrip("-")
unfoldable pub lstrip_minus : Line → Line
lstrip_minus [] = []
lstrip_minus (c ∷ cs) = if c == 45 then lstrip_minus cs else c ∷ cs

-- The value of a run of digits.
unfoldable pub number : ℕ → Line → ℕ
number acc [] = acc
number acc (c ∷ cs) = number (acc * 10 + (c - 48)) cs

abbrev pub negate : ℕ → ℤ
negate zero = pos 0
negate (suc n) = negsuc n

-- int(value), for a stripped text of minus signs and digits: more than one sign is a ValueError.
unfoldable pub parse_int : Line → Result ℤ
parse_int [] = err value_error
parse_int (c ∷ cs) =
    if c == 45
    then (if isdigit cs then ok (negate (number 0 cs)) else err value_error)
    else ok (pos (number 0 (c ∷ cs)))

abbrev pub Snap : Type 0
Snap = Dict ℤ

unfoldable pub add_line : Line → Snap → Result Snap
add_line line snap = elim (partition (strip line)) [
  | none ↦ ok snap
  | some (name, value) ↦
      if isdigit (lstrip_minus (strip value))
      then (parse_int (strip value) >>= λ v. ok (insert (strip name) v snap))
      else ok snap
]

unfoldable pub snapshot_from : Snap → List Line → Result Snap
snapshot_from snap [] = ok snap
snapshot_from snap (line ∷ lines) = add_line line snap >>= λ snap'. snapshot_from snap' lines

unfoldable pub snapshot : List Line → Result Snap
snapshot lines = snapshot_from [] lines
