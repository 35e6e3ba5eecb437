-- ===== src/FrameGen/Ends.antt =====
-- What every drawn stream gives to the store-and-forward path.
use emac_zero.Base.{
  Bool, Bool-cases, List, [], ap, arith, false, inl, inr, length, max, refl, suc, true, zero, ℕ,
  ◌++◌, ◌+◌, ◌-◌, ◌<◌, ◌∙◌, ◌∷◌, ◌≡◌, ◌≤◌,
}
use emac_zero.Base.Predicates.{All, IsBytes}
use emac_zero.Base.Py.{Bytes}
use emac_zero.Csum.Draw.{Random}
use emac_zero.Csum.Draw.Length.{length-rand_bytes, rand_bytes-IsBytes}
use emac_zero.FrameGen.{
  Bucket, bulk, drawn_segments, end_committed, near_max, oversized, random_segments, random_size,
  size_in, small, tagged,
}
use emac_zero.Saf.{SafState, Segment, accept, flatten_segments, marked, run, start, step}
use emac_zero.Saf.Frames.{marked_end, marked_more}

-- While a run is dropped, nothing is collected.
abbrev IsClean : SafState → Type 0
IsClean s = s.dropping ≡ true → s.cur ≡ []

step-IsClean : (m : ℕ) (s : SafState) (b : ℕ) (last : Bool) → IsClean s → IsClean (step m s b last)
unfolding step accept
step-IsClean m s b last h = ground (arith, h)

step-last : (m : ℕ) (s : SafState) (b : ℕ) → IsClean s → (step m s b true).cur ≡ []
unfolding step accept
step-last m s b h = ground (arith, h)

run-append :
    (m : ℕ) (s : SafState) (xs ys : List (ℕ × Bool)) → run m s (xs ++ ys) ≡ run m (run m s xs) ys
unfolding run
run-append m s [] ys = refl
run-append m s ((b, last) ∷ xs) ys = run-append m (step m s b last) xs ys

run-IsClean : (m : ℕ) (s : SafState) (xs : List (ℕ × Bool)) → IsClean s → IsClean (run m s xs)
unfolding run
run-IsClean m s [] h = h
run-IsClean m s ((b, last) ∷ xs) h = run-IsClean m (step m s b last) xs (step-IsClean m s b last h)

run-marked :
    (m : ℕ) (bs : Bytes) (n i : ℕ) (s : SafState)
    → 0 < length bs
    → i + length bs ≡ n
    → IsClean s
    → (run m s (marked true n i bs)).cur ≡ []
unfolding run
run-marked m [] n i s p e h = absurd (omega arith)
run-marked m (b ∷ []) n i s p e h = rw (marked_end b n i (omega arith)) (step-last m s b h)
run-marked m (b ∷ c ∷ bs) n i s p e h = rw (marked_more b (c ∷ bs) n i (omega arith)) (
    run-marked m (c ∷ bs) n (i + 1) (step m s b false) (omega arith) (omega arith)
      (step-IsClean m s b false h))

-- The last segment has a byte, and a mark on its last one.
abbrev pub EndsCommitted : List Segment → Type 0
EndsCommitted [] = ⊥
EndsCommitted (seg ∷ []) = (seg.last ≡ true) × (0 < length seg.bytes)
EndsCommitted (seg ∷ next ∷ segs) = EndsCommitted (next ∷ segs)

run-EndsCommitted :
    (m : ℕ) (segs : List Segment) (s : SafState)
    → EndsCommitted segs
    → IsClean s
    → (run m s (flatten_segments segs)).cur ≡ []
unfolding flatten_segments
run-EndsCommitted m [] s c h = absurd c
run-EndsCommitted m (seg ∷ []) s c h =
    let n = length seg.bytes in
    ap (λ (t : SafState). t.cur) (run-append m s (marked seg.last n 0 seg.bytes) [])
    ∙ unfold run in
      ap (λ last. (run m s (marked last n 0 seg.bytes)).cur) c.0
      ∙ run-marked m seg.bytes n 0 s c.1 (omega arith) h
run-EndsCommitted m (seg ∷ next ∷ segs) s c h =
    let first = marked seg.last (length seg.bytes) 0 seg.bytes in
    ap (λ (t : SafState). t.cur) (run-append m s first (flatten_segments (next ∷ segs)))
    ∙ run-EndsCommitted m (next ∷ segs) (run m s first) c (run-IsClean m s first h)

-- A segment of bytes, of `low` to `high` of them.
abbrev pub IsSized : ℕ → Segment → Type 0
IsSized high seg = IsBytes seg.bytes × (1 ≤ length seg.bytes) × (length seg.bytes ≤ high)

-- The longest frame that is drawn.
abbrev pub longest : ℕ → ℕ → ℕ
longest max_frame fifo_bytes = max 65 (max (max_frame + 4) (fifo_bytes + 200))

module _ (rng : Random) where
  open rng use {State, randint, randint-ge, randint-le}

  tagged-IsBytes : (n : ℕ) (s : State) → IsBytes (tagged rng n s).0
  unfolding tagged
  tagged-IsBytes zero s = tt
  tagged-IsBytes (suc n) s =
      let le = randint-le 1 255 s (omega arith) in (omega arith, rand_bytes-IsBytes rng n _)

  length-tagged : (n : ℕ) (s : State) → length (tagged rng n s).0 ≡ n
  unfolding tagged
  length-tagged zero s = refl
  length-tagged (suc n) s = ap suc (length-rand_bytes rng n _)

  module _ (m fifo : ℕ) (big : 4 < m) (room : m < fifo + 200) where
    size_in-InRange :
        (k : Bucket) (s : State)
        → (1 ≤ (size_in rng k m fifo s).0) × ((size_in rng k m fifo s).0 ≤ longest m fifo)
    unfolding size_in
    size_in-InRange small s =
        omega (arith, randint-ge 1 65 s (omega arith), randint-le 1 65 s (omega arith))
    size_in-InRange near_max s = omega (
      arith,
      randint-ge (m - 4) (m + 4) s (omega arith),
      randint-le (m - 4) (m + 4) s (omega arith),
    )
    size_in-InRange oversized s = omega (
      arith,
      randint-ge (m + 1) (fifo + 200) s (omega arith),
      randint-le (m + 1) (fifo + 200) s (omega arith),
    )
    size_in-InRange bulk s =
        omega (arith, randint-ge 1 m s (omega arith), randint-le 1 m s (omega arith))

    module _ (draw_bucket : State → Bucket × State) (draw_drop : State → Bool × State) where
      drawn_segments-All :
          (n : ℕ) (s : State)
          → All (IsSized (longest m fifo)) (drawn_segments rng draw_bucket draw_drop n m fifo s)
      unfolding drawn_segments random_size
      drawn_segments-All zero s = tt
      drawn_segments-All (suc n) s =
          let (bucket, s0) = draw_bucket s in
          let (size, s1) = size_in rng bucket m fifo s0 in
          let (low, high) = size_in-InRange bucket s0 in
          let e = length-tagged size (draw_drop s1).1 in
          ((tagged-IsBytes size (draw_drop s1).1, omega arith, omega arith), drawn_segments-All n _)

      length-drawn_segments :
          (n : ℕ) (s : State) → length (drawn_segments rng draw_bucket draw_drop n m fifo s) ≡ n
      unfolding drawn_segments
      length-drawn_segments zero s = refl
      length-drawn_segments (suc n) s = ap suc (length-drawn_segments n _)

      end_committed-kept :
          (segs : List Segment)
          → All (IsSized (longest m fifo)) segs
          → All (IsSized (longest m fifo)) (end_committed rng draw_bucket draw_drop segs)
            × (length (end_committed rng draw_bucket draw_drop segs) ≡ length segs)
      unfolding end_committed
      end_committed-kept [] a = (tt, refl)
      end_committed-kept (seg ∷ []) a = elim (Bool-cases seg.last) [
        | inl y ↦ rw y (a, refl)
        | inr n ↦ rw n (a, refl)
      ]
      end_committed-kept (seg ∷ next ∷ segs) a =
          let (x, e) = end_committed-kept (next ∷ segs) a.1 in ((a.0, x), ap suc e)

      end_committed-EndsCommitted :
          (segs : List Segment)
          → All (IsSized (longest m fifo)) segs
          → 0 < length segs
          → EndsCommitted (end_committed rng draw_bucket draw_drop segs)
      unfolding end_committed
      end_committed-EndsCommitted [] a p = absurd (omega arith)
      end_committed-EndsCommitted (seg ∷ []) a p = elim (Bool-cases seg.last) [
        | inl y ↦ rw y (refl, a.0.1)
        | inr n ↦ rw n (refl, a.0.1)
      ]
      end_committed-EndsCommitted (seg ∷ next ∷ []) a p =
          end_committed-EndsCommitted (next ∷ []) a.1 (omega arith)
      end_committed-EndsCommitted (seg ∷ next ∷ more ∷ segs) a p =
          end_committed-EndsCommitted (next ∷ more ∷ segs) a.1 (omega arith)

      -- For a `max_frame` above 4 that the FIFO and 200 bytes more exceed, and a number of frames
      -- above 0: there are as many segments as were asked for, each of 1 byte to the largest size
      -- that a bucket allows and made of bytes, whatever is drawn, and at the end of the stream the
      -- model has no byte that it did not commit or drop.
      pub random_segments-committed :
          (n : ℕ) (s : State)
          → 0 < n
          → (length (random_segments rng draw_bucket draw_drop n m fifo s) ≡ n)
            × All (IsSized (longest m fifo)) (random_segments rng draw_bucket draw_drop n m fifo s)
            × ((run m start
                  (flatten_segments (random_segments rng draw_bucket draw_drop n m fifo s))).cur
                ≡ [])
      unfolding random_segments
      random_segments-committed n s pos =
          let drawn = drawn_segments rng draw_bucket draw_drop n m fifo s in
          let all = drawn_segments-All n s in
          let (sized, e) = end_committed-kept drawn all in
          let count = length-drawn_segments n s in
          let ends = end_committed-EndsCommitted drawn all (omega arith) in
          (
            e ∙ count,
            sized,
            run-EndsCommitted m (random_segments rng draw_bucket draw_drop n m fifo s) start ends
                (λ h. refl),
          )
