-- ===== src/Bench/Capture/Frames.antt =====
-- The frames that MiiNibbleCapture takes from the wire.
use mathlib.Core.List.{append_assoc, append-nil}
use emac_zero.Base.{
  Bool, List, Option, [], ap, arith, false, none, refl, some, true, ℕ, ◌%◌, ◌++◌, ◌+◌, ◌/◌, ◌<◌,
  ◌^◌, ◌∙◌, ◌∷◌, ◌≡◌, length,
}
use emac_zero.Base.Bits.{bit_or_disjoint}
use emac_zero.Base.Predicates.{IsBytes}
use emac_zero.Base.Py.{Bytes}
use emac_zero.Bench.Capture.{
  MiiSample, NibbleCapture, capture_cycle, capture_run, capture_step, is_one, join_nibbles,
}

-- A cycle out of reset that carries a nibble, and one between frames.
abbrev pub nibble : ℕ → MiiSample
nibble v = record { rst_n = some 1; tx_en = some 1; txd = some v }

abbrev pub gap : Option ℕ → MiiSample
gap v = record { rst_n = some 1; tx_en = some 0; txd = v }

-- The bytes of a frame on the wire, the low nibble first.
abbrev pub wire_bytes : Bytes → List MiiSample → List MiiSample
wire_bytes [] rest = rest
wire_bytes (b ∷ bs) rest = nibble (b % 16) ∷ nibble (b / 16) ∷ wire_bytes bs rest

-- A frame, a last nibble without its pair or none, and a gap.
abbrev pub wire_burst : Bytes → Option ℕ → List MiiSample → List MiiSample
wire_burst bs none rest = wire_bytes bs (gap none ∷ rest)
wire_burst bs (some v) rest = wire_bytes bs (nibble v ∷ gap none ∷ rest)

abbrev pub wire_all : List (Bytes × Option ℕ) → List MiiSample
wire_all [] = []
wire_all ((bs, odd) ∷ frames) = wire_burst bs odd (wire_all frames)

-- The calls of on_byte for a frame, from index `i` on.
abbrev pub numbered : ℕ → Bytes → List (ℕ × Option ℕ)
numbered i [] = []
numbered i (b ∷ bs) = (i, some b) ∷ numbered (i + 1) bs

abbrev pub all_numbered : List (Bytes × Option ℕ) → List (ℕ × Option ℕ)
all_numbered [] = []
all_numbered ((bs, odd) ∷ frames) = numbered 0 bs ++ all_numbered frames

abbrev pub sizes : List (Bytes × Option ℕ) → List ℕ
sizes [] = []
sizes ((bs, odd) ∷ frames) = length bs ∷ sizes frames

-- Frames of one byte or more.
abbrev pub AreFrames : List (Bytes × Option ℕ) → Type 0
AreFrames [] = Unit {0}
AreFrames ((bs, odd) ∷ frames) = IsBytes bs × (0 < length bs) × AreFrames frames

-- Between frames, and within one at a whole byte.
abbrev pub idle_capture : Option ℕ → List (ℕ × Option ℕ) → List ℕ → NibbleCapture
idle_capture l got frames = record {
  en_d = false;
  nsel = false;
  lown = l;
  widx = 0;
  got = got;
  frames = frames;
}

abbrev within_frame : Option ℕ → ℕ → List (ℕ × Option ℕ) → List ℕ → NibbleCapture
within_frame l i got frames = record {
  en_d = true;
  nsel = false;
  lown = l;
  widx = i;
  got = got;
  frames = frames;
}

pub join-nibbles : (b : ℕ) → join_nibbles (some (b / 16)) (some (b % 16)) ≡ some b
unfolding join_nibbles
join-nibbles b =
    let fits : b % 16 < 2 ^ 4 = omega arith in
    ap some (bit_or_disjoint 4 (b / 16) (b % 16) fits ∙ omega arith)

one_byte :
    (e : Bool) (b i : ℕ) (l : Option ℕ) (got : List (ℕ × Option ℕ)) (frames : List ℕ)
    (rest : List MiiSample)
    → capture_run
        (record { en_d = e; nsel = false; lown = l; widx = i; got = got; frames = frames })
        (nibble (b % 16) ∷ nibble (b / 16) ∷ rest)
      ≡ capture_run (within_frame (some (b % 16)) (i + 1) (got ++ (i, some b) ∷ []) frames) rest
unfolding capture_run capture_step capture_cycle is_one
one_byte e b i l got frames rest = rw (join-nibbles b) refl

the_end :
    (odd : Option ℕ) (i : ℕ) (l : Option ℕ) (got : List (ℕ × Option ℕ)) (frames : List ℕ)
    (rest : List MiiSample)
    → (l' : Option ℕ) × (capture_run (within_frame l i got frames) (wire_burst [] odd rest)
        ≡ capture_run (idle_capture l' got (frames ++ i ∷ [])) rest)
unfolding capture_run capture_step capture_cycle is_one
the_end none i l got frames rest = (l, refl)
the_end (some v) i l got frames rest = (some v, refl)

wire-split :
    (b : ℕ) (bs : Bytes) (odd : Option ℕ) (rest : List MiiSample)
    → wire_burst (b ∷ bs) odd rest ≡ nibble (b % 16) ∷ nibble (b / 16) ∷ wire_burst bs odd rest
wire-split b bs none rest = refl
wire-split b bs (some v) rest = refl

run_bytes :
    (bs : Bytes) (odd : Option ℕ) (i : ℕ) (l : Option ℕ) (got : List (ℕ × Option ℕ))
    (frames : List ℕ) (rest : List MiiSample)
    → (l' : Option ℕ) × (capture_run (within_frame l i got frames) (wire_burst bs odd rest)
        ≡ capture_run
            (idle_capture l' (got ++ numbered i bs) (frames ++ (i + length bs) ∷ []))
            rest)
run_bytes [] odd i l got frames rest =
    let (l', e) = the_end odd i l got frames rest in
    let z : i + 0 ≡ i = omega arith in (l', e ∙ rw (append-nil got, z) refl)
run_bytes (b ∷ bs) odd i l got frames rest =
    let (l', e) = run_bytes bs odd (i + 1) (some (b % 16)) (got ++ (i, some b) ∷ []) frames rest in
    let n : i + 1 + length bs ≡ i + length (b ∷ bs) = omega arith in
    (
      l',
      ap (capture_run (within_frame l i got frames)) (wire-split b bs odd rest)
          ∙ one_byte true b i l got frames (wire_burst bs odd rest)
          ∙ e
          ∙ rw (n, append_assoc got ((i, some b) ∷ []) (numbered (i + 1) bs)) refl,
    )

-- However frames of one byte or more stand on the wire, each with a last nibble without its pair or
-- none, and a gap after each: the capture, between frames at first, calls on_byte once for each whole
-- byte, with its index and its value, and on_frame once for each frame, with its number of whole
-- bytes, in the order of the wire, and is between frames again.
pub capture_run-wire_all :
    (frames : List (Bytes × Option ℕ)) (l : Option ℕ) (got : List (ℕ × Option ℕ)) (ends : List ℕ)
    → AreFrames frames
    → (l' : Option ℕ) × (capture_run (idle_capture l got ends) (wire_all frames)
        ≡ idle_capture l' (got ++ all_numbered frames) (ends ++ sizes frames))
capture_run-wire_all [] l got ends h =
    (l, unfold capture_run in rw (append-nil got, append-nil ends) refl)
capture_run-wire_all (([], odd) ∷ frames) l got ends h = absurd (omega arith)
capture_run-wire_all ((b ∷ bs, odd) ∷ frames) l got ends h =
    let rest = wire_all frames in
    let (l1, e) = run_bytes bs odd 1 (some (b % 16)) (got ++ (0, some b) ∷ []) ends rest in
    let got1 = (got ++ (0, some b) ∷ []) ++ numbered 1 bs in
    let (l2, g) = capture_run-wire_all frames l1 got1 (ends ++ (1 + length bs) ∷ []) h.2 in
    let n : 1 + length bs ≡ length (b ∷ bs) = omega arith in
    (
      l2,
      ap (capture_run (idle_capture l got ends)) (wire-split b bs odd rest)
          ∙ one_byte false b 0 l got ends (wire_burst bs odd rest)
          ∙ e
          ∙ g
          ∙ rw
              (
                n,
                append_assoc ends (length (b ∷ bs) ∷ []) (sizes frames),
                append_assoc got ((0, some b) ∷ []) (numbered 1 bs),
                append_assoc got ((0, some b) ∷ numbered 1 bs) (all_numbered frames),
              )
              refl,
    )
