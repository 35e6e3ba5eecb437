-- ===== src/Scoreboard.antt =====
-- The scoreboards of sim/cocotb/lib/model.py and sim/cocotb/lib/gmii_cdc_model.py. An error message
-- is a value that holds what its text shows.
pub mod Verdict
pub mod FirstDiff
use mathlib.Core.Option
use emac_zero.Base.{
  Bool, List, Option, [], false, get_or, if◌then◌else◌, length, none, some, true, ℕ, ◌&&◌, ◌++◌,
  ◌+◌, ◌==◌, ◌∷◌,
}
use emac_zero.Base.Py.{Bytes}

pub data Diff : Type 0 where
  differ_at : ℕ → ℕ → ℕ → Diff
  lengths : ℕ → ℕ → Diff

pub data Message : Type 0 where
  count_mismatch : ℕ → ℕ → Message
  frame_mismatch : ℕ → ℕ → ℕ → Diff → Message

-- a == b on `bytes`
unfoldable pub bytes_eq : Bytes → Bytes → Bool
bytes_eq [] [] = true
bytes_eq [] (y ∷ ys) = false
bytes_eq (x ∷ xs) [] = false
bytes_eq (x ∷ xs) (y ∷ ys) = (x == y) && bytes_eq xs ys

-- The loop over `range(min(len(a), len(b)))`, from index `i`.
first_diff_from : ℕ → Bytes → Bytes → Option Diff
first_diff_from i [] ys = none
first_diff_from i (x ∷ xs) [] = none
first_diff_from i (x ∷ xs) (y ∷ ys) =
    let rest = first_diff_from (i + 1) xs ys in if x == y then rest else some (differ_at i x y)

unfoldable pub first_diff : Bytes → Bytes → Diff
unfolding first_diff_from
first_diff a b = Option.get_or (first_diff_from 0 a b) (lengths (length a) (length b))

-- The loop over `enumerate(zip(expected, observed))`, from index `i`.
unfoldable pub frame_errors : ℕ → List Bytes → List Bytes → List Message
unfolding bytes_eq first_diff
frame_errors i [] obs = []
frame_errors i (e ∷ es) [] = []
frame_errors i (e ∷ es) (o ∷ os) =
    let rest = frame_errors (i + 1) es os in
    if bytes_eq e o then rest else frame_mismatch i (length e) (length o) (first_diff e o) ∷ rest

unfoldable pub count_errors : List Bytes → List Bytes → List Message
count_errors expected observed =
    if length observed == length expected
    then []
    else count_mismatch (length expected) (length observed) ∷ []

pub record Scoreboard : Type 0 where
  pub expected : List Bytes
  pub errors : List Message

unfoldable pub new_scoreboard : List Bytes → Scoreboard
new_scoreboard expected = record { expected = expected; errors = [] }

abbrev pub is_empty : List Message → Bool
is_empty [] = true
is_empty (m ∷ ms) = false

-- `Scoreboard.check`: the errors stay in the object from one call to the next.
unfoldable pub check : Scoreboard → List Bytes → Scoreboard × Bool
unfolding frame_errors count_errors
check sb observed =
    let errors' =
      sb.errors ++ (count_errors sb.expected observed ++ frame_errors 0 sb.expected observed) in
    (record sb { errors = errors' }, is_empty errors')

-- sim/cocotb/lib/gmii_cdc_model.py: the clock crossing leaves every frame as it is.
unfoldable pub gmii_tx_expected : List Bytes → List Bytes
gmii_tx_expected [] = []
gmii_tx_expected (f ∷ fs) = f ∷ gmii_tx_expected fs
