-- ===== src/Cdc/Receive.antt =====
-- The receive driver's frames through the receive monitor.
use mathlib.Core.List.{append_assoc, append-nil}
use emac_zero.Base.{
  List, Option, [], ap, ap₂, arith, false, length, map, refl, replicate, some, suc, sym, true, zero,
  ℕ, ◌%◌, ◌++◌, ◌+◌, ◌<◌, ◌^◌, ◌∙◌, ◌∷◌, ◌≡◌,
}
use emac_zero.Base.Bits.{low_bits}
use emac_zero.Base.Predicates.{All, IsBytes}
use emac_zero.Base.Py.{Bytes, Result, bind_ok, ok, ok-injective, ◌>>=◌}
use emac_zero.Cdc.{
  Cycle, RxMonitor, drive_bytes, er_list, idle_cycle, masked, rx_run, rx_sample, rx_send,
}

-- The monitor between frames.
abbrev pub rx_between : List Bytes → List (List ℕ) → ℕ → RxMonitor
rx_between frames ers n = record {
  frames = frames;
  frame_ers = ers;
  count = n;
  prev_dv = false;
  cur = [];
  cur_er = [];
}

abbrev within_frame : List Bytes → List (List ℕ) → ℕ → Bytes → List ℕ → RxMonitor
within_frame frames ers n cur er = record {
  frames = frames;
  frame_ers = ers;
  count = n;
  prev_dv = true;
  cur = cur;
  cur_er = er;
}

rx_run-append : (m : RxMonitor) (xs ys : List Cycle) → rx_run m (xs ++ ys) ≡ rx_run (rx_run m xs) ys
unfolding rx_run
rx_run-append m [] ys = refl
rx_run-append m (x ∷ xs) ys = rx_run-append (rx_sample m x) xs ys

masked_same : (bs : Bytes) → IsBytes bs → masked bs ≡ bs
masked_same [] h = refl
masked_same (b ∷ bs) h = let e : b % 2 ^ 8 ≡ b = omega arith in ap₂ ◌∷◌ e (masked_same bs h.1)

module _ (frames : List Bytes) (ers : List (List ℕ)) (n : ℕ) where
  run_idle :
      (k : ℕ) → rx_run (rx_between frames ers n) (replicate k idle_cycle) ≡ rx_between frames ers n
  unfolding rx_run rx_sample
  run_idle zero = refl
  run_idle (suc k) = run_idle k

  -- The bytes of a frame are driven, and collected.
  run_bytes :
      (bs : Bytes) (es : List ℕ) (cur : Bytes) (er : List ℕ)
      → IsBytes bs
      → length es ≡ length bs
      → (cycles : List Cycle) × (drive_bytes bs es ≡ ok cycles)
        × (rx_run (within_frame frames ers n cur er) cycles
            ≡ within_frame frames ers n (cur ++ bs) (er ++ es))
  unfolding drive_bytes rx_run rx_sample
  run_bytes [] [] cur er h l = ([], refl, rw (append-nil cur, append-nil er) refl)
  run_bytes [] (e ∷ es) cur er h l = absurd (omega arith)
  run_bytes (b ∷ bs) [] cur er h l = absurd (omega arith)
  run_bytes (b ∷ bs) (e ∷ es) cur er h l =
      let (cycles, d, r) = run_bytes bs es (cur ++ b ∷ []) (er ++ e ∷ []) h.1 (omega arith) in
      let low : b % 2 ^ 8 ≡ b = omega arith in
      (
        record { byte = b; valid = true; er = e } ∷ cycles,
        rw d refl,
        rw low (rw (append_assoc cur (b ∷ []) bs, append_assoc er (e ∷ []) es) at r),
      )

  run_first :
      (b : ℕ) (bs : Bytes) (es : List ℕ)
      → IsBytes (b ∷ bs)
      → length es ≡ length (b ∷ bs)
      → (cycles : List Cycle) × (drive_bytes (b ∷ bs) es ≡ ok cycles)
        × (rx_run (rx_between frames ers n) cycles ≡ within_frame frames ers n (b ∷ bs) es)
  unfolding drive_bytes rx_run rx_sample
  run_first b bs [] h l = absurd (omega arith)
  run_first b bs (e ∷ es) h l =
      let (cycles, d, r) = run_bytes bs es (b ∷ []) (e ∷ []) h.1 (omega arith) in
      let low : b % 2 ^ 8 ≡ b = omega arith in
      (record { byte = b; valid = true; er = e } ∷ cycles, rw d refl, rw (low, rx_run) r)

end_frame :
    (frames : List Bytes) (ers : List (List ℕ)) (n : ℕ) (cur : Bytes) (er : List ℕ) (k : ℕ)
    → rx_run (within_frame frames ers n cur er) (idle_cycle ∷ replicate k idle_cycle)
      ≡ rx_between (frames ++ cur ∷ []) (ers ++ er ∷ []) (n + 1)
unfolding rx_run rx_sample
end_frame frames ers n cur er k = run_idle (frames ++ cur ∷ []) (ers ++ er ∷ []) (n + 1) k

module _ (frames : List Bytes) (ers : List (List ℕ)) (n : ℕ) where
  -- One frame, sent with a gap.
  round_trip :
      (bytes : Bytes) (gap : ℕ) (er : Option (List ℕ))
      → IsBytes bytes
      → 0 < length bytes
      → 0 < gap
      → length (er_list er bytes) ≡ length bytes
      → (cycles : List Cycle) × (rx_send bytes gap er ≡ ok cycles)
        × (rx_run (rx_between frames ers n) cycles
            ≡ rx_between (frames ++ bytes ∷ []) (ers ++ er_list er bytes ∷ []) (n + 1))
  round_trip [] gap er h pos g l = absurd (omega arith)
  round_trip (b ∷ bs) zero er h pos g l = absurd (omega arith)
  round_trip (b ∷ bs) (suc k) er h pos g l =
      let (cycles, d, r) = run_first frames ers n b bs (er_list er (b ∷ bs)) h l in
      (
        cycles ++ (idle_cycle ∷ replicate k idle_cycle),
        unfold rx_send in rw (masked_same (b ∷ bs) h, d) refl,
        rw (rx_run-append (rx_between frames ers n) cycles (idle_cycle ∷ replicate k idle_cycle), r)
            (end_frame frames ers n (b ∷ bs) (er_list er (b ∷ bs)) k),
      )

-- One call of `send_frame`, and a run of calls.
pub record Send : Type 0 where
  pub bytes : Bytes
  pub gap : ℕ
  pub er : Option (List ℕ)

abbrev pub send_all : List Send → Result (List Cycle)
send_all [] = ok []
send_all (s ∷ ss) = do first ← rx_send s.bytes s.gap s.er; rest ← send_all ss; ok (first ++ rest)

abbrev pub CanDrive : Send → Type 0
CanDrive s =
    IsBytes s.bytes
    × (0 < length s.bytes)
    × (0 < s.gap)
    × (length (er_list s.er s.bytes) ≡ length s.bytes)

-- Frames that are not empty, sent one after the other with a gap after each and an error flag for
-- each byte, are seen by the monitor as they were sent: bytes, error flags, order and number.
pub rx_run-send_all :
    (sends : List Send) (frames : List Bytes) (ers : List (List ℕ)) (n : ℕ)
    → All CanDrive sends
    → (cycles : List Cycle) × (send_all sends ≡ ok cycles)
      × (rx_run (rx_between frames ers n) cycles
          ≡ rx_between
              (frames ++ map (λ s. s.bytes) sends)
              (ers ++ map (λ s. er_list s.er s.bytes) sends)
              (n + length sends))
rx_run-send_all [] frames ers n h =
    let z : n + 0 ≡ n = omega arith in
    ([], refl, unfold rx_run in rw (append-nil frames, append-nil ers, z) refl)
rx_run-send_all (s ∷ ss) frames ers n h =
    let (first, d, r) = round_trip frames ers n s.bytes s.gap s.er h.0.0 h.0.1 h.0.2 h.0.3 in
    let (rest, d', r') =
      rx_run-send_all ss (frames ++ s.bytes ∷ []) (ers ++ er_list s.er s.bytes ∷ []) (n + 1) h.1 in
    let z : n + suc (length ss) ≡ n + 1 + length ss = omega arith in
    (
      first ++ rest,
      rw (d, d') refl,
      rw (rx_run-append (rx_between frames ers n) first rest, r, z)
          (rw
            (
              append_assoc frames (s.bytes ∷ []) (map (λ x. x.bytes) ss),
              append_assoc ers (er_list s.er s.bytes ∷ []) (map (λ x. er_list x.er x.bytes) ss),
            )
            at r'),
    )

drive_bytes-append :
    (xs ys : Bytes) (es fs : List ℕ) (a b : List Cycle)
    → drive_bytes xs es ≡ ok a
    → length es ≡ length xs
    → drive_bytes ys fs ≡ ok b
    → drive_bytes (xs ++ ys) (es ++ fs) ≡ ok (a ++ b)
unfolding drive_bytes
drive_bytes-append [] ys [] fs a b h l k = k ∙ ap (λ (z : List Cycle). ok (z ++ b)) (ok-injective h)
drive_bytes-append [] ys (e ∷ es) fs a b h l k = absurd (omega arith)
drive_bytes-append (x ∷ xs) ys [] fs a b h l k = absurd (omega arith)
drive_bytes-append (x ∷ xs) ys (e ∷ es) fs a b h l k =
    let (r, d, q) = bind_ok (drive_bytes xs es) _ h in
    let i = drive_bytes-append xs ys es fs r b d (omega arith) k in
    rw i (ap (λ (z : List Cycle). ok (z ++ b)) (ok-injective q))

masked-append : (xs ys : Bytes) → masked (xs ++ ys) ≡ masked xs ++ masked ys
masked-append [] ys = refl
masked-append (x ∷ xs) ys = ap (◌∷◌ (low_bits x 8)) (masked-append xs ys)

length-masked : (xs : Bytes) → length (masked xs) ≡ length xs
length-masked [] = refl
length-masked (x ∷ xs) = ap suc (length-masked xs)

-- A frame that is sent with no gap and an error flag for each byte is joined to the next one: the
-- two calls drive the same cycles as one call with the bytes of both.
pub rx_send-merged :
    (xs ys : Bytes) (gap : ℕ) (er fs : Option (List ℕ)) (a b : List Cycle)
    → rx_send xs 0 er ≡ ok a
    → length (er_list er xs) ≡ length xs
    → rx_send ys gap fs ≡ ok b
    → rx_send (xs ++ ys) gap (some (er_list er xs ++ er_list fs ys)) ≡ ok (a ++ b)
unfolding rx_send
rx_send-merged xs ys gap er fs a b h l k =
    let (c, d, e) = bind_ok (drive_bytes (masked xs) (er_list er xs)) _ h in
    let (c', d', e') = bind_ok (drive_bytes (masked ys) (er_list fs ys)) _ k in
    let j =
      drive_bytes-append (masked xs) (masked ys) (er_list er xs) (er_list fs ys) c c' d
        (omega (arith, length-masked xs)) d' in
    rw (masked-append xs ys, j)
      (ap ok (
        append_assoc c c' (replicate gap idle_cycle)
        ∙ ap₂ ◌++◌ (sym (append-nil c) ∙ ok-injective e) (ok-injective e')))
