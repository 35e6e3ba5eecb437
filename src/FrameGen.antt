-- ===== src/FrameGen.antt =====
-- sim/cocotb/lib/frame_gen.py: the segments that the store-and-forward path is driven with.
pub mod Ends
pub mod Sizes
use emac_zero.Base.{
  Bool, List, [], false, if◌then◌else◌, leb, ltb, not, replicate, suc, true, zero, ℕ, ◌%◌, ◌*◌,
  ◌++◌, ◌+◌, ◌-◌, ◌==◌, ◌∷◌,
}
use emac_zero.Base.Py.{Bytes}
use emac_zero.Csum.Draw.{Random, rand_bytes}
use emac_zero.Saf.{Segment}

-- sorted() of a set: ascending, each number once.
unfoldable pub insert_sorted : ℕ → List ℕ → List ℕ
insert_sorted x [] = x ∷ []
insert_sorted x (y ∷ ys) =
    if ltb x y then x ∷ y ∷ ys else if x == y then y ∷ ys else y ∷ insert_sorted x ys

-- sorted(x for x in s if x >= 1)
unfoldable pub sorted_sizes : List ℕ → List ℕ
sorted_sizes [] = []
sorted_sizes (x ∷ xs) = if leb 1 x then insert_sorted x (sorted_sizes xs) else sorted_sizes xs

-- The set of `boundary_sizes`; what the code takes below 0 is 0 here, and is left out as well.
abbrev pub corners : ℕ → ℕ → List ℕ
corners max_frame fifo_bytes =
    1
    ∷ 2
    ∷ 59
    ∷ 60
    ∷ 61
    ∷ 63
    ∷ 64
    ∷ 65
    ∷ (max_frame - 1)
    ∷ max_frame
    ∷ (max_frame + 1)
    ∷ (2 * max_frame)
    ∷ (fifo_bytes - 1)
    ∷ fifo_bytes
    ∷ (fifo_bytes + 1)
    ∷ []

unfoldable pub boundary_sizes : ℕ → ℕ → List ℕ
boundary_sizes max_frame fifo_bytes = sorted_sizes (corners max_frame fifo_bytes)

-- One committed frame for each size, from index `i` on.
unfoldable pub sized_segments : ℕ → List ℕ → List Segment
sized_segments i [] = []
sized_segments i (s ∷ sizes) =
    record { bytes = (0xA0 + i % 64) ∷ replicate (s - 1) 0; last = true }
    ∷ sized_segments (i + 1) sizes

unfoldable pub directed_segments : ℕ → ℕ → List Segment
directed_segments max_frame fifo_bytes =
    sized_segments 0 (boundary_sizes max_frame fifo_bytes)
    ++ record { bytes = replicate 20 0x11; last = false }
      ∷ record { bytes = replicate 20 0x22; last = true }
      ∷ record { bytes = replicate (fifo_bytes + 100) 0x33; last = false }
      ∷ record { bytes = replicate 64 0x44; last = true }
      ∷ []

-- The region that rng.random() chooses by the bounds 0.30, 0.55 and 0.72.
pub data Bucket : Type 0 where
  small near_max oversized bulk : Bucket

module _ (rng : Random) where
  open rng use {State, randint}

  -- `_tagged`, for a size that is not below 0; randrange(1, 256) is randint(1, 255).
  unfoldable pub tagged : ℕ → State → Bytes × State
  tagged zero s = ([], s)
  tagged (suc n) s =
      let (tag, s') = randint 1 255 s in let (bs, s'') = rand_bytes rng n s' in (tag ∷ bs, s'')

  -- `random_size` of a bucket, where max_frame is 4 or more.
  unfoldable pub size_in : Bucket → ℕ → ℕ → State → ℕ × State
  size_in small max_frame fifo_bytes s = randint 1 65 s
  size_in near_max max_frame fifo_bytes s = randint (max_frame - 4) (max_frame + 4) s
  size_in oversized max_frame fifo_bytes s = randint (max_frame + 1) (fifo_bytes + 200) s
  size_in bulk max_frame fifo_bytes s = randint 1 max_frame s

  -- What rng.random() decides: the bucket, and whether it is below p_drop_last.
  module _ (draw_bucket : State → Bucket × State) (draw_drop : State → Bool × State) where
    unfoldable pub random_size : ℕ → ℕ → State → ℕ × State
    random_size max_frame fifo_bytes s =
        let (bucket, s') = draw_bucket s in size_in bucket max_frame fifo_bytes s'

    -- for _ in range(n_frames): …
    unfoldable pub drawn_segments : ℕ → ℕ → ℕ → State → List Segment
    drawn_segments zero max_frame fifo_bytes s = []
    drawn_segments (suc n) max_frame fifo_bytes s =
        let (size, s1) = random_size max_frame fifo_bytes s in
        let (drop, s2) = draw_drop s1 in
        let (bytes, s3) = tagged size s2 in
        record { bytes = bytes; last = not drop } ∷ drawn_segments n max_frame fifo_bytes s3

    -- if segs and not segs[-1].last: segs[-1] = Segment(segs[-1].data, last=True)
    unfoldable pub end_committed : List Segment → List Segment
    end_committed [] = []
    end_committed (seg ∷ []) = (if not seg.last then record seg { last = true } else seg) ∷ []
    end_committed (seg ∷ next ∷ segs) = seg ∷ end_committed (next ∷ segs)

    unfoldable pub random_segments : ℕ → ℕ → ℕ → State → List Segment
    random_segments n_frames max_frame fifo_bytes s =
        end_committed (drawn_segments n_frames max_frame fifo_bytes s)
