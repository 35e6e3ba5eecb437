-- ===== src/Saf/Refine.antt =====
-- The state machine of `saf_expected` implements the policy of `Saf.Spec`.
use mathlib.Core.List.{append_assoc, append-nil}
use native.Mathlib.Decide.{dec_lt}
use emac_zero.Base.{
  Bool, List, [], ap, arith, false, length, length-append, refl, suc, take, take-all, true, zero, ℕ,
  ◌++◌, ◌<◌, ◌∙◌, ◌∷◌, ◌≡◌, ◌≤◌,
}
use emac_zero.Base.Py.{Bytes}
use emac_zero.Saf.{SafState, Segment, flatten_segments, run, saf_expected, step}
use emac_zero.Saf.Spec.{cut, wire_frames}

pub take-snoc :
    {A : Type 0} (n : ℕ) (xs : List A) (x : A) → n ≤ length xs → take n (xs ++ x ∷ []) ≡ take n xs
take-snoc zero xs x h = refl
take-snoc (suc n) [] x h = absurd (omega arith)
take-snoc (suc n) (y ∷ ys) x h = ap (◌∷◌ y) (take-snoc n ys x (omega arith))

abbrev busy : List Bytes → Bytes → SafState
busy frames cur = record { frames = frames; cur = cur; dropping = false }

abbrev discarding : List Bytes → SafState
discarding frames = record { frames = frames; cur = []; dropping = true }

module _ (m : ℕ) (frames : List Bytes) (cur : Bytes) (b : ℕ) where
  commit_last :
      length cur < m
      → step m (busy frames cur) b true ≡ busy (frames ++ cut m (cur ++ b ∷ []) ∷ []) []
  unfolding step
  commit_last h =
      rw (take-all m (cur ++ b ∷ []) (omega (arith, length-append cur (b ∷ [])))) (ground arith)

  commit_forced :
      suc (length cur) ≡ m
      → step m (busy frames cur) b false ≡ discarding (frames ++ cut m (cur ++ b ∷ []) ∷ [])
  unfolding step
  commit_forced h =
      rw (take-all m (cur ++ b ∷ []) (omega (arith, length-append cur (b ∷ []))))
        (ground (arith, length-append cur (b ∷ [])))

  collect : suc (length cur) < m → step m (busy frames cur) b false ≡ busy frames (cur ++ b ∷ [])
  unfolding step
  collect h = ground (arith, length-append cur (b ∷ []))

module _ (m : ℕ) (frames : List Bytes) (b : ℕ) where
  resume : step m (discarding frames) b true ≡ busy frames []
  unfolding step
  resume = refl

  stay : step m (discarding frames) b false ≡ discarding frames
  unfolding step
  stay = refl

-- While bytes are collected, and while they are discarded: what the loop will have appended.
mutual
  unfolding run wire_frames

  run-busy :
      (m : ℕ) (stream : List (ℕ × Bool)) (frames : List Bytes) (cur : Bytes)
      → length cur < m
      → (run m (busy frames cur) stream).frames ≡ frames ++ wire_frames m cur stream
  run-busy m [] frames cur h = ground (arith, append-nil frames)
  run-busy m ((b, true) ∷ rest) frames cur h =
      rw (commit_last m frames cur b h, run)
        (run-busy m rest (frames ++ cut m (cur ++ b ∷ []) ∷ []) [] (omega arith)
          ∙ append_assoc frames _ _)
  run-busy m ((b, false) ∷ rest) frames cur h = elim (dec_lt (suc (length cur)) m) [
    | yes p ↦
        rw (collect m frames cur b p, run)
          (run-busy m rest frames (cur ++ b ∷ []) (omega (arith, length-append cur (b ∷ []))))
    | no p ↦
        rw (commit_forced m frames cur b (omega arith), run)
          (run-discarding m rest frames (cur ++ b ∷ []) (omega arith)
            (omega (arith, length-append cur (b ∷ []))))
  ]

  run-discarding :
      (m : ℕ) (stream : List (ℕ × Bool)) (frames : List Bytes) (r : Bytes)
      → 0 < m
      → m ≤ length r
      → (run m (discarding (frames ++ cut m r ∷ [])) stream).frames
        ≡ frames ++ wire_frames m r stream
  run-discarding m [] frames r pos h = ground arith
  run-discarding m ((b, true) ∷ rest) frames r pos h =
      rw (resume m (frames ++ cut m r ∷ []) b, run, take-snoc m r b h)
        (run-busy m rest (frames ++ cut m r ∷ []) [] pos ∙ append_assoc frames _ _)
  run-discarding m ((b, false) ∷ rest) frames r pos h =
      rw (stay m (frames ++ cut m r ∷ []) b, run, ← take-snoc m r b h)
        (run-discarding m rest frames (r ++ b ∷ []) pos (omega (arith, length-append r (b ∷ []))))

-- For a `max_frame` above 0, the model's frames are those of the policy: every run whole or cut at `max_frame`, in order, and
-- an open run at the end only if it has reached `max_frame`.
pub saf_expected-refines :
    (segments : List Segment) (max_frame : ℕ)
    → 0 < max_frame
    → saf_expected segments max_frame ≡ wire_frames max_frame [] (flatten_segments segments)
unfolding saf_expected
saf_expected-refines segments max_frame h = run-busy max_frame (flatten_segments segments) [] [] h
