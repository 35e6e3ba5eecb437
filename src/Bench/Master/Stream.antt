-- ===== src/Bench/Master/Stream.antt =====
-- The stream that AxisMaster sends is the one that the store-and-forward model is run on.
use mathlib.Core.List.{append-nil}
use emac_zero.Base.{
  Bool, List, Option, [], none, refl, some, suc, ℕ, ◌&&◌, ◌++◌, ◌+◌, ◌==◌, ◌∙◌, ◌∷◌, ◌≡◌, ap,
  length,
}
use emac_zero.Base.Py.{Bytes}
use emac_zero.Bench.Bus.{Bus, IsLive, accept_beat, beat, drive, low, taken}
use emac_zero.Bench.Master.{bubble, idle_cycles, send_all, send_bytes, send_segment}
use emac_zero.Bench.Transfer.{>>=-Adds, Adds, accept_beat-Adds, taken-low_edges}
use emac_zero.Saf.{Segment, flatten_segments, marked}

module _ (ready : ℕ → Bool) where
  taken-idle_cycles : (n : ℕ) (bus : Bus) → taken (idle_cycles ready n bus).trace ≡ taken bus.trace
  unfolding idle_cycles
  taken-idle_cycles n bus = taken-low_edges ready n (low bus) refl

  taken-bubble : (o : Option ℕ) (bus : Bus) → taken (bubble ready o bus).trace ≡ taken bus.trace
  unfolding bubble
  taken-bubble none bus = refl
  taken-bubble (some gap) bus = taken-idle_cycles gap bus

  module _ (fuel : ℕ) (draws : ℕ → Option ℕ) (live : IsLive ready fuel) where
    send_byte-Adds :
        (j : ℕ) (b : ℕ) (last : Bool) (bus : Bus)
        → Adds ready
            (accept_beat ready fuel (drive (beat b last) (bubble ready (draws j) bus)))
            bus
            ((b, last) ∷ [])
    send_byte-Adds j b last bus =
        let (bus', p, q) =
          accept_beat-Adds ready fuel (drive (beat b last) (bubble ready (draws j) bus)) b last live
            refl in
        (bus', p, q ∙ ap (λ t. t ++ (b, last) ∷ []) (taken-bubble (draws j) bus))

    send_bytes-Adds :
        (bs : Bytes) (j n : ℕ) (last : Bool) (i : ℕ) (bus : Bus)
        → Adds ready (send_bytes ready fuel draws j n last i bs bus) bus (marked last n i bs)
    unfolding send_bytes marked
    send_bytes-Adds [] j n last i bus = (low bus, refl, append-nil-sym)
      where
        append-nil-sym : taken bus.trace ≡ taken bus.trace ++ []
        append-nil-sym = rw (append-nil (taken bus.trace)) refl
    send_bytes-Adds (b ∷ bs) j n last i bus =
        >>=-Adds ready _ _ bus ((b, last && (i + 1 == n)) ∷ []) (marked last n (i + 1) bs)
          (send_byte-Adds j b (last && (i + 1 == n)) bus)
          (send_bytes-Adds bs (suc j) n last (i + 1))

    -- If tready is high within every `fuel` edges that follow one another, `send_all` ends, however
    -- bubbles are drawn, and the beats that the design takes are those of the stream that
    -- `saf_expected` is run on, each once and in order, whatever the signals were before.
    pub send_all-stream :
        (segments : List Segment) (j : ℕ) (bus : Bus)
        → Adds ready (send_all ready fuel draws j segments bus) bus (flatten_segments segments)
    unfolding send_all send_segment flatten_segments
    send_all-stream [] j bus = (
      idle_cycles ready 4 bus,
      refl,
      taken-idle_cycles 4 bus ∙ rw (append-nil (taken bus.trace)) refl,
    )
    send_all-stream (seg ∷ segs) j bus =
        >>=-Adds ready _ _ bus (marked seg.last (length seg.bytes) 0 seg.bytes)
          (flatten_segments segs) (send_bytes-Adds seg.bytes j (length seg.bytes) seg.last 0 bus)
          (send_all-stream segs (j + length seg.bytes))
