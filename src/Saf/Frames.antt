-- ===== src/Saf/Frames.antt =====
-- What the policy gives: bounds on every frame, and the whole input when every segment is a
-- committed frame that fits.
use mathlib.Core.List.{append_assoc}
use emac_zero.Base.{
  ==_iff, Bool, Bool-cases, List, [], ap, arith, false, inl, inr, leb, length, length-take, map,
  max, refl, take, take-all, true, ℕ, ◌++◌, ◌+◌, ◌<◌, ◌∙◌, ◌∷◌, ◌≡◌, ◌≤◌,
}
use emac_zero.Base.Predicates.{All}
use emac_zero.Base.Py.{Bytes}
use emac_zero.Eth.{pad_payload}
use emac_zero.Eth.Fcs.{length-pad_payload}
use emac_zero.Saf.{Segment, flatten_segments, marked, run, saf_expected}
use emac_zero.Saf.Refine.{saf_expected-refines}
use emac_zero.Saf.Spec.{cut, wire_frames}

abbrev InRange : ℕ → Bytes → Type 0
InRange max_frame f = (60 ≤ length f) × (length f ≤ max 60 max_frame)

cut-InRange : (m : ℕ) (r : Bytes) → InRange m (cut m r)
cut-InRange m r = omega (arith, length-pad_payload (take m r), length-take m r)

wire_frames-InRange :
    (m : ℕ) (run : Bytes) (stream : List (ℕ × Bool)) → All (InRange m) (wire_frames m run stream)
unfolding wire_frames
wire_frames-InRange m run [] = elim (Bool-cases (leb m (length run))) [
  | inl e ↦ rw e (cut-InRange m run, tt)
  | inr e ↦ rw e tt
]
wire_frames-InRange m run ((b, true) ∷ rest) =
    (cut-InRange m (run ++ b ∷ []), wire_frames-InRange m [] rest)
wire_frames-InRange m run ((b, false) ∷ rest) = wire_frames-InRange m (run ++ b ∷ []) rest

-- For a `max_frame` above 0, every frame that the model expects has at least 60 bytes, and at most
-- `max_frame` bytes or 60, whichever is more.
pub saf_expected-InRange :
    (segments : List Segment) (max_frame : ℕ)
    → 0 < max_frame
    → All (λ f. (60 ≤ length f) × (length f ≤ max 60 max_frame)) (saf_expected segments max_frame)
saf_expected-InRange segments m h =
    rw (saf_expected-refines segments m h) (wire_frames-InRange m [] (flatten_segments segments))

-- A segment that is one committed frame of the right size.
abbrev pub IsCommitted : ℕ → Segment → Type 0
IsCommitted m seg = (seg.last ≡ true) × (0 < length seg.bytes) × (length seg.bytes ≤ m)

pub marked_end : (b n i : ℕ) → i + 1 ≡ n → marked true n i (b ∷ []) ≡ (b, true) ∷ []
unfolding marked
marked_end b n i e = rw ((==_iff (i + 1) n).1 e) refl

pub marked_more :
    (b : ℕ) (bs : Bytes) (n i : ℕ)
    → i + 1 < n
    → marked true n i (b ∷ bs) ≡ (b, false) ∷ marked true n (i + 1) bs
unfolding marked
marked_more b bs n i e = ground arith

wire_frames-marked :
    (m : ℕ) (bs run : Bytes) (n i : ℕ) (rest : List (ℕ × Bool))
    → 0 < length bs
    → i + length bs ≡ n
    → wire_frames m run (marked true n i bs ++ rest) ≡ cut m (run ++ bs) ∷ wire_frames m [] rest
unfolding wire_frames
wire_frames-marked m [] run n i rest p e = absurd (omega arith)
wire_frames-marked m (b ∷ []) run n i rest p e = rw (marked_end b n i (omega arith)) refl
wire_frames-marked m (b ∷ c ∷ bs) run n i rest p e =
    rw (marked_more b (c ∷ bs) n i (omega arith), wire_frames)
      (wire_frames-marked m (c ∷ bs) (run ++ b ∷ []) n (i + 1) rest (omega arith) (omega arith)
        ∙ ap (λ (r : Bytes). cut m r ∷ wire_frames m [] rest) (append_assoc run (b ∷ []) (c ∷ bs)))

wire_frames-committed :
    (m : ℕ) (segs : List Segment)
    → 0 < m
    → All (IsCommitted m) segs
    → wire_frames m [] (flatten_segments segs) ≡ map (λ seg. pad_payload seg.bytes) segs
unfolding wire_frames flatten_segments
wire_frames-committed m [] pos c = ground arith
wire_frames-committed m (seg ∷ segs) pos c = rw c.0.0 (
    rw
      (wire_frames-marked m seg.bytes [] (length seg.bytes) 0 (flatten_segments segs) c.0.1
        (omega arith))
      (rw (take-all m seg.bytes c.0.2)
        (ap (◌∷◌ (pad_payload seg.bytes)) (wire_frames-committed m segs pos c.1))))

-- For a `max_frame` above 0, segments that each are one committed frame, not empty and of at most
-- `max_frame` bytes, come back one for one, in order, padded and otherwise unchanged.
pub saf_expected-committed :
    (segments : List Segment) (max_frame : ℕ)
    → 0 < max_frame
    → All (IsCommitted max_frame) segments
    → saf_expected segments max_frame ≡ map (λ seg. pad_payload seg.bytes) segments
saf_expected-committed segments m h c =
    saf_expected-refines segments m h ∙ wire_frames-committed m segments h c
