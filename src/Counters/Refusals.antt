-- ===== src/Counters/Refusals.antt =====
-- What a session writes, and what `main` does on a board of another build.
use emac_zero.Base.{Bool, Bool-cases, List, [], inl, inr, refl, true, ℕ, ◌&&◌, ◌==◌, ◌≡◌, ◌⊎◌}
use emac_zero.Base.Py.{Result, err, ok}
use emac_zero.Counters.{Fields, read_eio}
use emac_zero.Counters.Sessions.{
  EioSession, after_close, eio_session, right_build, use_fields, use_session,
}
use emac_zero.Loopback.Board.{clear}

-- The board is of this build by its first agreeing reads, and a clear was asked for.
abbrev pub MayWrite : EioSession → Bool → Type 0
MayWrite s clear =
    (f : Fields) × (read_eio s.reads ≡ ok f) × (right_build f ≡ true) × (clear ≡ true)

use_fields-Writes :
    (s : EioSession) (clear : Bool) (r : Result Fields)
    → read_eio s.reads ≡ r
    → ((use_fields s clear r).1 ≡ []) ⊎ MayWrite s clear
unfolding use_fields
use_fields-Writes s clear (err e) q = inl refl
use_fields-Writes s clear (ok f) q = elim (Bool-cases (right_build f)) [
  | inr n ↦ inl (rw n refl)
  | inl y ↦ elim (Bool-cases clear) [ inr n ↦ inl (rw (y, n) refl) | inl c ↦ inr (f, q, y, c) ]
]

use_session-Writes :
    (s : EioSession) (clear : Bool) (c : Result (Unit {0}))
    → ((use_session s clear c).1 ≡ []) ⊎ MayWrite s clear
unfolding use_session
use_session-Writes s clear (err e) = inl refl
use_session-Writes s clear (ok u) = elim (Bool-cases ((s.widths.0 == 256) && (s.widths.1 == 8))) [
  | inl y ↦ rw y (use_fields-Writes s clear (read_eio s.reads) refl)
  | inr n ↦ rw n (inl refl)
]

after_close-words :
    (c : Result (Unit {0})) (out : Result Fields × List ℕ) → (after_close c out).1 ≡ out.1
unfolding after_close
after_close-words (ok u) out = refl
after_close-words (err e) (outcome, words) = refl

-- Whatever a session ends with, also where a call of it raises, it hands no word to write_outputs,
-- unless its reads before any write gave the marker and the layout of the throughput build and a
-- clear was asked for.
pub eio_session-Writes :
    (s : EioSession) (clear : Bool) → ((eio_session s clear).1 ≡ []) ⊎ MayWrite s clear
unfolding eio_session
eio_session-Writes s clear = by_controller s.controller
  where
    by_controller :
        (c : Result (Unit {0}))
        → ((elim c as (λ x. Result Fields × List ℕ) [
          | err e ↦ (err e, [])
          | ok u ↦ after_close s.close (use_session s clear s.connect)
        ]).1
            ≡ [])
          ⊎ MayWrite s clear
    by_controller (err e) = inl refl
    by_controller (ok u) =
        rw (after_close-words s.close (use_session s clear s.connect))
          (use_session-Writes s clear s.connect)
