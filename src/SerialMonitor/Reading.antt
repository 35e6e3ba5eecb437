-- ===== src/SerialMonitor/Reading.antt =====
-- What a result holds after the lines are read.
use emac_zero.Base.{
  Bool, Bool-cases, List, Option, Option-cases, [], ap, false, if◌then◌else◌, inl, inr, none, refl,
  some, true, ◌++◌, ◌∙◌, ◌∷◌, ◌≡◌, ◌⊎◌,
}
use emac_zero.Base.Predicates.{All}
use emac_zero.Base.Text.{
  Line, codes, lookup, lookup-insert_ne, lookup-insert_self, same_text, strip,
}
use emac_zero.SerialMonitor.Ports.{starts_with}
use emac_zero.SerialMonitor.Report.{
  Monitor, find_prefix, fresh_monitor, prefixes, read_lines, step_line, take_line,
}

-- A line that does not end the reading.
abbrev pub IsOpen : Option Line → Type 0
IsOpen none = ⊥
IsOpen (some line) = same_text (strip line) (codes "DONE") ≡ false

-- A line that is not one of this result.
abbrev pub IsOther : Line → Option Line → Type 0
IsOther name none = Unit {0}
IsOther name (some line) =
    (find_prefix prefixes (strip line) ≡ none)
    ⊎ ((n : Line) × (v : Line) × (find_prefix prefixes (strip line) ≡ some (n, v))
        × (same_text name n ≡ false))

if_either : (P : Monitor → Type 0) (b : Bool) (x y : Monitor) → P x → P y → P (if b then x else y)
if_either P true x y p q = p
if_either P false x y p q = q

take_line-found :
    (m : Monitor) (name value text : Line)
    → find_prefix prefixes text ≡ some (name, value)
    → lookup name (take_line m text).results ≡ some value
unfolding take_line
take_line-found m name value text e = rw (e, take_line) (lookup-insert_self name value m.results)

take_line-other :
    (m : Monitor) (name line : Line) (o : Option Line)
    → IsOther name (some line)
    → lookup name m.results ≡ o
    → lookup name (take_line m (strip line)).results ≡ o
unfolding take_line
take_line-other m name line o (inl e) h =
    elim (Bool-cases (same_text (strip line) (codes "DONE"))) [
      | inl y ↦ rw (e, take_line, y) h
      | inr n ↦ rw (e, take_line, n) h
    ]
take_line-other m name line o (inr (n, v, e, d)) h =
    rw (e, take_line) (lookup-insert_ne name n v m.results d ∙ h)

take_line-done :
    (m : Monitor) (line : Line)
    → same_text line (codes "DONE") ≡ false
    → m.done ≡ false
    → (take_line m line).done ≡ false
unfolding take_line
take_line-done m line e h = elim (Option-cases (find_prefix prefixes line)) [
  | inl q ↦ rw (q, take_line, e) h
  | inr (nv, q) ↦ rw (q, take_line) h
]

step_line-other :
    (m : Monitor) (name line : Line) (o : Option Line)
    → IsOther name (some line)
    → lookup name m.results ≡ o
    → lookup name (step_line m (strip line)).results ≡ o
unfolding step_line
step_line-other m name line o x h = go (strip line) refl (take_line-other m name line o x h)
  where
    go :
        (text : Line)
        → strip line ≡ text
        → lookup name (take_line m (strip line)).results ≡ o
        → lookup name (step_line m text).results ≡ o
    go [] e k = h
    go (c ∷ cs) e k = rw e at k

step_line-done :
    (m : Monitor) (line : Line)
    → same_text line (codes "DONE") ≡ false
    → m.done ≡ false
    → (step_line m line).done ≡ false
unfolding step_line
step_line-done m [] e h = h
step_line-done m (c ∷ cs) e h = take_line-done m (c ∷ cs) e h

-- What stands in the results stays while lines of other names are read.
read_lines-other :
    (m : Monitor) (name : Line) (o : Option Line) (after : List (Option Line))
    → All (IsOther name) after
    → lookup name m.results ≡ o
    → lookup name (read_lines m after).results ≡ o
unfolding read_lines
read_lines-other m name o [] x h = h
read_lines-other m name o (none ∷ after) x h = h
read_lines-other m name o (some line ∷ after) x h =
    let m' = step_line m (strip line) in
    let k = step_line-other m name line o x.0 h in
    let ih = read_lines-other m' name o after x.1 k in
    if_either (λ n. lookup name n.results ≡ o) m'.done m' (read_lines m' after) k ih

step_line-found :
    (m : Monitor) (name value text : Line)
    → find_prefix prefixes text ≡ some (name, value)
    → lookup name (step_line m text).results ≡ some value
unfolding step_line find_prefix starts_with
step_line-found m name value [] e = cc
step_line-found m name value (c ∷ cs) e = take_line-found m name value (c ∷ cs) e

read_lines-through :
    (m : Monitor) (name value line : Line) (before after : List (Option Line))
    → m.done ≡ false
    → All IsOpen before
    → find_prefix prefixes (strip line) ≡ some (name, value)
    → All (IsOther name) after
    → lookup name (read_lines m (before ++ (some line ∷ after))).results ≡ some value
unfolding read_lines
read_lines-through m name value line [] after d b e x =
    let m' = step_line m (strip line) in
    let k = step_line-found m name value (strip line) e in
    if_either (λ n. lookup name n.results ≡ some value) m'.done m' (read_lines m' after) k
      (read_lines-other m' name (some value) after x k)
read_lines-through m name value line (none ∷ before) after d b e x = absurd b.0
read_lines-through m name value line (some l ∷ before) after d b e x =
    let k = step_line-done m (strip l) b.0 d in
    let m' = step_line m (strip l) in
    let rest = read_lines m' (before ++ (some line ∷ after)) in
    ap (λ c. lookup name (if c then m' else rest).results) k
    ∙ read_lines-through m' name value line before after k b.1 e x

-- A result is the rest of the last line with its prefix, the lines before which do not end the
-- reading, with white space around the line taken off.
pub read_lines-last :
    (name value line : Line) (before after : List (Option Line))
    → All IsOpen before
    → find_prefix prefixes (strip line) ≡ some (name, value)
    → All (IsOther name) after
    → lookup name (read_lines fresh_monitor (before ++ (some line ∷ after))).results ≡ some value
read_lines-last name value line before after =
    read_lines-through fresh_monitor name value line before after refl
