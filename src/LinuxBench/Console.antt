-- ===== src/LinuxBench/Console.antt =====
-- `SerialBoard.run` and `SshBoard.run`: what the board prints on a command.
use emac_zero.Base.{
  Bool, List, Option, [], drop, if◌then◌else◌, none, some, take, ◌&&◌, ◌++◌, ◌==◌, ◌∷◌, ℕ,
}
use emac_zero.Base.Py.{Result, err, ok, runtime_error, ◌>>=◌}
use emac_zero.Base.Text.{Line, codes, isdigit, same_text}

abbrev pub begin_line : Line
begin_line = codes "__EMZ_BENCH_BEGIN__"

abbrev pub end_line : Line
end_line = codes "__EMZ_BENCH_END__"

-- f'{name[:6]}""{name[6:]}'
unfoldable pub split_marker : Line → Line
split_marker name = take 6 name ++ (34 ∷ 34 ∷ drop 6 name)

-- end.match(line), for "^__EMZ_BENCH_END__ (\d+)$"
unfoldable pub is_end : Line → Bool
is_end line = same_text (take 18 line) (end_line ++ (32 ∷ [])) && isdigit (drop 18 line)

-- lines[lines.index(BEGIN) + 1:]
unfoldable pub after_begin : List Line → Option (List Line)
after_begin [] = none
after_begin (line ∷ lines) = if same_text line begin_line then some lines else after_begin lines

-- The lines up to the first that matches the end, if there is one.
unfoldable pub before_end : List Line → Option (List Line)
before_end [] = none
before_end (line ∷ lines) =
    let rest = before_end lines in
    if is_end line then some [] else elim rest [ none ↦ none | some ls ↦ some (line ∷ ls) ]

-- `run`, from the lines of the console on; BoardError is a RuntimeError.
unfoldable pub run_lines : List Line → Result (List Line)
run_lines lines = elim (after_begin lines) [
  | none ↦ err runtime_error
  | some rest ↦ elim (before_end rest) [ none ↦ err runtime_error | some body ↦ ok body ]
]

-- What the outside gives on a command, or what it raises: the lines that `_read` takes from the serial
-- console, or the return code of ssh and the lines of its output.
pub data Answer : Type 0 where
  console : Result (List Line) → Answer
  shell : Result (ℕ × List Line) → Answer

-- `run` of either board; ssh itself ends with 255.
unfoldable pub board_run : Answer → Result (List Line)
board_run (console answer) = answer >>= run_lines
board_run (shell answer) = answer >>= λ res. if res.0 == 255 then err runtime_error else ok res.1
