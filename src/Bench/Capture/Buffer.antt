-- ===== src/Bench/Capture/Buffer.antt =====
-- The frame that BridgeMiiCapture leaves in its buffer.
use mathlib.Core.List.{append_assoc}
use emac_zero.Base.{
  List, Option, [], ap, arith, drop, false, if◌then◌else◌, length, ltb, map, none, refl, set, some,
  suc, take, true, zero, ℕ, ◌%◌, ◌++◌, ◌+◌, ◌/◌, ◌<◌, ◌∙◌, ◌∷◌, ◌≡◌, sym, lt→ltb,
}
use emac_zero.Base.Py.{Bytes}
use emac_zero.Bench.Capture.{
  BridgeCapture, MiiSample, bridge_cycle, bridge_nibble, bridge_run, bridge_step, is_one,
}
use emac_zero.Bench.Capture.Frames.{gap, join-nibbles, nibble, wire_bytes}

-- The bytes from index `i` on, written one by one where they fit.
abbrev writes : ℕ → ℕ → Bytes → List (Option ℕ) → List (Option ℕ)
writes size i [] buf = buf
writes size i (b ∷ bs) buf = writes size (i + 1) bs (if ltb i size then set buf i (some b) else buf)

-- A buffer that was written from its start on: what fits of the bytes, and what stood behind them.
abbrev pub filled : Bytes → List (Option ℕ) → List (Option ℕ)
filled bs buf = map some (take (length buf) bs) ++ drop (length bs) buf

set-middle :
    (i : ℕ) (pre : List (Option ℕ)) (x v : Option ℕ) (post : List (Option ℕ))
    → length pre ≡ i
    → set (pre ++ x ∷ post) i v ≡ pre ++ v ∷ post
set-middle zero [] x v post h = refl
set-middle zero (y ∷ pre) x v post h = absurd (omega arith)
set-middle (suc i) [] x v post h = absurd (omega arith)
set-middle (suc i) (y ∷ pre) x v post h = ap (◌∷◌ y) (set-middle i pre x v post (omega arith))

writes-full :
    (size i : ℕ) (bs : Bytes) (buf : List (Option ℕ)) → size < i + 1 → writes size i bs buf ≡ buf
writes-full size i [] buf h = refl
writes-full size i (b ∷ bs) buf h =
    let full : ltb i size ≡ false = ground arith in
    rw full (writes-full size (i + 1) bs buf (omega arith))

writes_lem :
    (size i : ℕ) (bs : Bytes) (pre post : List (Option ℕ))
    → length pre ≡ i
    → i + length post ≡ size
    → writes size i bs (pre ++ post) ≡ pre ++ filled bs post
writes_lem size i [] pre [] h k = refl
writes_lem size i [] pre (x ∷ post) h k = refl
writes_lem size i (b ∷ bs) pre [] h k = writes-full size i (b ∷ bs) (pre ++ []) (omega arith)
writes_lem size i (b ∷ bs) pre (x ∷ post) h k =
    rw (lt→ltb i size (omega arith), set-middle i pre x (some b) post h)
      (ap (writes size (i + 1) bs) (sym (append_assoc pre (some b ∷ []) post))
        ∙ writes_lem size (i + 1) bs (pre ++ some b ∷ []) post
            (length-last pre (some b) ∙ omega arith) (omega arith)
        ∙ append_assoc pre (some b ∷ []) (filled bs post))
  where
    length-last : (xs : List (Option ℕ)) (y : Option ℕ) → length (xs ++ y ∷ []) ≡ length xs + 1
    length-last [] y = omega arith
    length-last (z ∷ xs) y = omega (arith, length-last xs y)

module _ (size : ℕ) (ends : List (ℕ × List (Option ℕ))) where
  abbrev in_frame : List (Option ℕ) → ℕ → Option ℕ → BridgeCapture
  in_frame buf i l = record {
    size = size;
    buf = buf;
    prev = true;
    nib_sel = false;
    lower = l;
    idx = i;
    ends = ends;
  }

  byte_in :
      (b i : ℕ) (l : Option ℕ) (buf : List (Option ℕ)) (rest : List MiiSample)
      → bridge_run (in_frame buf i l) (nibble (b % 16) ∷ nibble (b / 16) ∷ rest)
        ≡ bridge_run
            (in_frame (if ltb i size then set buf i (some b) else buf) (i + 1) (some (b % 16)))
            rest
  unfolding bridge_run bridge_step bridge_cycle bridge_nibble is_one
  byte_in b i l buf rest = rw (join-nibbles b) refl

  run_in :
      (bs : Bytes) (i : ℕ) (l : Option ℕ) (buf : List (Option ℕ)) (rest : List MiiSample)
      → (l' : Option ℕ) × (bridge_run (in_frame buf i l) (wire_bytes bs rest)
          ≡ bridge_run (in_frame (writes size i bs buf) (i + length bs) l') rest)
  run_in [] i l buf rest = let z : i + 0 ≡ i = omega arith in (l, rw z refl)
  run_in (b ∷ bs) i l buf rest =
      let buf' = if ltb i size then set buf i (some b) else buf in
      let (l', e) = run_in bs (i + 1) (some (b % 16)) buf' rest in
      let n : i + 1 + length bs ≡ i + length (b ∷ bs) = omega arith in
      (l', byte_in b i l buf (wire_bytes bs rest) ∙ e ∙ rw n refl)

  -- Between frames, after `i` bytes of the frame before.
  abbrev pub idle_bridge : List (Option ℕ) → ℕ → Option ℕ → BridgeCapture
  idle_bridge buf i l = record {
    size = size;
    buf = buf;
    prev = false;
    nib_sel = false;
    lower = l;
    idx = i;
    ends = ends;
  }

  first_in :
      (b i : ℕ) (l : Option ℕ) (buf : List (Option ℕ)) (rest : List MiiSample)
      → bridge_run (idle_bridge buf i l) (nibble (b % 16) ∷ nibble (b / 16) ∷ rest)
        ≡ bridge_run
            (in_frame (if ltb 0 size then set buf 0 (some b) else buf) (0 + 1) (some (b % 16)))
            rest
  unfolding bridge_run bridge_step bridge_cycle bridge_nibble is_one
  first_in b i l buf rest = rw (join-nibbles b) refl

  gap_in :
      (buf : List (Option ℕ)) (i : ℕ) (l : Option ℕ)
      → bridge_run (in_frame buf i l) (gap none ∷ [])
        ≡ record (idle_bridge buf i l) { ends = ends ++ (i, buf) ∷ [] }
  unfolding bridge_run bridge_step bridge_cycle bridge_nibble is_one
  gap_in buf i l = refl

  -- A frame of one byte or more and a gap, taken between frames by a capture of `size` bytes: the
  -- buffer holds what fits of the frame and keeps what stood behind it, and on_frame_end is called
  -- once more, with the number of the frame's bytes, whether they fit or not, and this buffer. The
  -- capture is between frames again.
  pub bridge_run-frame :
      (b : ℕ) (bs : Bytes) (i : ℕ) (l : Option ℕ) (buf : List (Option ℕ))
      → length buf ≡ size
      → (l' : Option ℕ) × (bridge_run (idle_bridge buf i l) (wire_bytes (b ∷ bs) (gap none ∷ []))
          ≡ record (idle_bridge (filled (b ∷ bs) buf) (length (b ∷ bs)) l') {
            ends = ends ++ (length (b ∷ bs), filled (b ∷ bs) buf) ∷ [];
          })
  bridge_run-frame b bs i l buf h =
      let buf' = if ltb 0 size then set buf 0 (some b) else buf in
      let (l', e) = run_in bs 1 (some (b % 16)) buf' (gap none ∷ []) in
      let n : 1 + length bs ≡ length (b ∷ bs) = omega arith in
      let w : writes size 0 (b ∷ bs) buf ≡ filled (b ∷ bs) buf =
        writes_lem size 0 (b ∷ bs) [] buf refl (omega arith) in
      (
        l',
        first_in b i l buf (wire_bytes bs (gap none ∷ []))
            ∙ e
            ∙ rw (n, w) (gap_in (filled (b ∷ bs) buf) (length (b ∷ bs)) l'),
      )
