-- ===== src/Saf.antt =====
-- sim/cocotb/lib/model.py and sim/cocotb/lib/frame_gen.py: the segments that the store-and-forward
-- transmit path is driven with, and the model of what it commits, truncates and drops.
pub mod Spec
pub mod Refine
pub mod Frames
use emac_zero.Base.{
  Bool, List, [], false, if◌then◌else◌, length, not, true, ℕ, ◌&&◌, ◌++◌, ◌+◌, ◌==◌, ◌||◌, ◌∷◌,
}
use emac_zero.Base.Py.{Bytes}
use emac_zero.Eth.{pad_payload}

-- The source's field `data` is `bytes` here.
pub record Segment : Type 0 where
  pub bytes : Bytes
  pub last : Bool

-- (b, seg.last and i == n - 1) for each byte; an empty segment has no byte and so no mark.
unfoldable pub marked : Bool → ℕ → ℕ → Bytes → List (ℕ × Bool)
marked last n i [] = []
marked last n i (b ∷ bs) = (b, last && (i + 1 == n)) ∷ marked last n (i + 1) bs

unfoldable pub flatten_segments : List Segment → List (ℕ × Bool)
unfolding marked
flatten_segments [] = []
flatten_segments (seg ∷ segs) =
    marked seg.last (length seg.bytes) 0 seg.bytes ++ flatten_segments segs

pub record SafState : Type 0 where
  pub frames : List Bytes
  pub cur : Bytes
  pub dropping : Bool

-- The loop's body past the `continue`.
unfoldable pub accept : ℕ → SafState → ℕ → Bool → SafState
accept max_frame s b last =
    let cur = s.cur ++ b ∷ [] in
    let forced = (length cur == max_frame) && not last in
    if last || forced
    then record {
      frames = s.frames ++ pad_payload cur ∷ [];
      cur = [];
      dropping = if forced then true else s.dropping;
    }
    else record s { cur = cur }

unfoldable pub step : ℕ → SafState → ℕ → Bool → SafState
unfolding accept
step max_frame s b last =
    if s.dropping
    then (if last then record s { dropping = false } else s)
    else accept max_frame s b last

unfoldable pub run : ℕ → SafState → List (ℕ × Bool) → SafState
run max_frame s [] = s
run max_frame s ((b, last) ∷ rest) = run max_frame (step max_frame s b last) rest

abbrev pub start : SafState
start = record { frames = []; cur = []; dropping = false }

unfoldable pub saf_expected : List Segment → ℕ → List Bytes
unfolding run step flatten_segments
saf_expected segments max_frame = (run max_frame start (flatten_segments segments)).frames
