-- ===== src/Sink/Capture.antt =====
-- A frame on m_axis as the sink records it, however its more are stalled.
use mathlib.Core.List.{append_assoc}
use emac_zero.Base.{
  Bool, List, [], arith, false, length, refl, true, ℕ, ◌%◌, ◌&&◌, ◌++◌, ◌<◌, ◌^◌, ◌||◌, ◌∷◌, ◌≡◌,
}
use emac_zero.Base.Predicates.{IsBytes}
use emac_zero.Base.Py.{Bytes}
use emac_zero.Rx.{GotFrame}
use emac_zero.Sink.{AxisSink, Turn, next_ready, sink_run, sink_step, take_beat}

-- A turn in which a byte with its marks is offered; the turn is free in all else.
abbrev pub Offers : Turn → ℕ → Bool → Bool → Bool → Type 0
Offers c b e first last =
    (c.tvalid ≡ true) × (c.tdata ≡ b) × (c.terror ≡ e) × (c.tsof ≡ first) × (c.tlast ≡ last)

abbrev is_last : List (ℕ × Bool) → Bool
is_last [] = true
is_last (b ∷ bs) = false

-- Turns that carry the beats of a frame from a stall on: a turn with tvalid low or with tready low
-- may come before each beat. `first` marks the beat that starts the frame.
pub data Carries : ℕ → Bool → List (ℕ × Bool) → List Turn → Type 0 where
  carried : {k : ℕ} {first : Bool} → Carries k first [] []
  waits :
      {k : ℕ} {first : Bool} {more : List (ℕ × Bool)} {cs : List Turn} (c : Turn)
      → (c.tvalid && (next_ready k c).0) ≡ false
      → Carries (next_ready k c).1 first more cs
      → Carries k first more (c ∷ cs)
  accepts :
      {k b : ℕ} {e first : Bool} {more : List (ℕ × Bool)} {cs : List Turn} (c : Turn)
      → (next_ready k c).0 ≡ true
      → Offers c b e first (is_last more)
      → Carries (next_ready k c).1 false more cs
      → Carries k first ((b, e) ∷ more) (c ∷ cs)

abbrev pub bytes_of : List (ℕ × Bool) → Bytes
bytes_of [] = []
bytes_of ((b, e) ∷ rest) = b ∷ bytes_of rest

abbrev pub any_error : List (ℕ × Bool) → Bool
any_error [] = false
any_error ((b, e) ∷ rest) = e || any_error rest

-- Inside a frame, and between frames.
abbrev filling : List GotFrame → Bytes → Bool → ℕ → AxisSink
filling frames cur bad k = record {
  frames = frames;
  cur = cur;
  err = bad;
  sof_seen = true;
  stall = k;
}

abbrev pub ready_for : List GotFrame → ℕ → AxisSink
ready_for frames k = record { frames = frames; cur = []; err = false; sof_seen = false; stall = k }

run_skip :
    (s : AxisSink) (c : Turn) (cs : List Turn)
    → (c.tvalid && (next_ready s.stall c).0) ≡ false
    → sink_run s (c ∷ cs) ≡ sink_run (record s { stall = (next_ready s.stall c).1 }) cs
unfolding sink_run sink_step
run_skip s c cs w = rw w refl

run_take :
    (s : AxisSink) (c : Turn) (cs : List Turn)
    → c.tvalid ≡ true
    → (next_ready s.stall c).0 ≡ true
    → sink_run s (c ∷ cs)
      ≡ sink_run (take_beat (record s { stall = (next_ready s.stall c).1 }) c) cs
unfolding sink_run sink_step next_ready take_beat
run_take s c cs v y = rw (v, y) refl

after_frame :
    {k : ℕ} {first : Bool} {cs : List Turn} (frames : List GotFrame)
    → Carries k first [] cs
    → (sink_run (ready_for frames k) cs).frames ≡ frames
after_frame frames carried = unfold sink_run in refl
after_frame {k} frames (waits {cs = cs} c w r) =
    rw (run_skip (ready_for frames k) c cs w) (after_frame frames r)

module _ (frames : List GotFrame) where
  take_last :
      (cur : Bytes) (bad : Bool) (k : ℕ) (c : Turn) (b : ℕ) (e : Bool)
      → b < 256
      → Offers c b e false true
      → take_beat (filling frames cur bad k) c
        ≡ ready_for
            (frames ++ record { payload = cur ++ b ∷ []; terror = e || bad; sof = true } ∷ [])
            k
  unfolding take_beat
  take_last cur bad k c b e h o =
      let low : b % 2 ^ 8 ≡ b = omega arith in rw (o.1, o.2, o.3, o.4, low) refl

  take_more :
      (cur : Bytes) (bad : Bool) (k : ℕ) (c : Turn) (b : ℕ) (e : Bool)
      → b < 256
      → Offers c b e false false
      → take_beat (filling frames cur bad k) c ≡ filling frames (cur ++ b ∷ []) (e || bad) k
  unfolding take_beat
  take_more cur bad k c b e h o =
      let low : b % 2 ^ 8 ≡ b = omega arith in rw (o.1, o.2, o.3, o.4, low) refl

  or_swap : (e bad rest : Bool) → ((e || bad) || rest) ≡ (bad || (e || rest))
  or_swap e bad rest = ground arith

  run_filling :
      {k : ℕ} {more : List (ℕ × Bool)} {cs : List Turn} (cur : Bytes) (bad : Bool)
      → Carries k false more cs
      → IsBytes (bytes_of more)
      → 0 < length more
      → (sink_run (filling frames cur bad k) cs).frames
        ≡ frames
          ++ record { payload = cur ++ bytes_of more; terror = bad || any_error more; sof = true }
            ∷ []
  run_filling cur bad carried h pos = absurd (omega arith)
  run_filling {k} cur bad (waits {cs = cs} c w r) h pos =
      rw (run_skip (filling frames cur bad k) c cs w) (run_filling cur bad r h pos)
  run_filling {k} cur bad (accepts {b = b} {e = e} {more = []} {cs = cs} c y o r) h pos =
      let swap : (e || bad) ≡ (bad || (e || false)) = ground arith in
      rw
        (
          run_take (filling frames cur bad k) c cs o.0 y,
          take_last cur bad (next_ready k c).1 c b e h.0 o,
          swap,
        )
        (after_frame _ r)
  run_filling {k} cur bad (accepts {b = b} {e = e} {more = x ∷ xs} {cs = cs} c y o r) h pos =
      let ih : (sink_run (filling frames (cur ++ b ∷ []) (e || bad) (next_ready k c).1) cs).frames
          ≡ frames
            ++ record {
              payload = (cur ++ b ∷ []) ++ bytes_of (x ∷ xs);
              terror = (e || bad) || any_error (x ∷ xs);
              sof = true;
            }
              ∷ [] =
        run_filling (cur ++ b ∷ []) (e || bad) r h.1 (omega arith) in
      rw
        (
          run_take (filling frames cur bad k) c cs o.0 y,
          take_more cur bad (next_ready k c).1 c b e h.0 o,
          ih,
          append_assoc cur (b ∷ []) (bytes_of (x ∷ xs)),
          or_swap e bad (any_error (x ∷ xs)),
        )
        refl

  first_last :
      (k : ℕ) (c : Turn) (b : ℕ) (e : Bool)
      → b < 256
      → Offers c b e true true
      → take_beat (ready_for frames k) c
        ≡ ready_for (frames ++ record { payload = b ∷ []; terror = e || false; sof = true } ∷ []) k
  unfolding take_beat
  first_last k c b e h o =
      let low : b % 2 ^ 8 ≡ b = omega arith in rw (o.1, o.2, o.3, o.4, low) refl

  first_more :
      (k : ℕ) (c : Turn) (b : ℕ) (e : Bool)
      → b < 256
      → Offers c b e true false
      → take_beat (ready_for frames k) c ≡ filling frames (b ∷ []) (e || false) k
  unfolding take_beat
  first_more k c b e h o =
      let low : b % 2 ^ 8 ≡ b = omega arith in rw (o.1, o.2, o.3, o.4, low) refl

  -- However the beats of a frame of one byte or more are stalled, by the source or by the sink, the
  -- sink records one frame: the bytes in order, an error if any beat had one, and that its start
  -- was seen.
  pub sink_run-frame :
      (k : ℕ) (more : List (ℕ × Bool)) (cs : List Turn)
      → Carries k true more cs
      → IsBytes (bytes_of more)
      → 0 < length more
      → (sink_run (ready_for frames k) cs).frames
        ≡ frames ++ record { payload = bytes_of more; terror = any_error more; sof = true } ∷ []
  sink_run-frame k [] cs carried h pos = absurd (omega arith)
  sink_run-frame k more cs (waits {cs = ds} c w r) h pos =
      rw (run_skip (ready_for frames k) c ds w) (sink_run-frame (next_ready k c).1 more ds r h pos)
  sink_run-frame k ((b, e) ∷ []) cs (accepts {cs = ds} c y o r) h pos =
      rw (run_take (ready_for frames k) c ds o.0 y, first_last (next_ready k c).1 c b e h.0 o)
        (after_frame _ r)
  sink_run-frame k ((b, e) ∷ x ∷ xs) cs (accepts {cs = ds} c y o r) h pos =
      let z : ((e || false) || any_error (x ∷ xs)) ≡ (e || any_error (x ∷ xs)) = ground arith in
      let ih : (sink_run (filling frames (b ∷ []) (e || false) (next_ready k c).1) ds).frames
          ≡ frames
            ++ record {
              payload = b ∷ bytes_of (x ∷ xs);
              terror = (e || false) || any_error (x ∷ xs);
              sof = true;
            }
              ∷ [] =
        run_filling (b ∷ []) (e || false) r h.1 (omega arith) in
      rw
        (run_take (ready_for frames k) c ds o.0 y, first_more (next_ready k c).1 c b e h.0 o, ih, z)
        refl
