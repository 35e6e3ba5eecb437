-- ===== src/Bench/Posedge/Sent.antt =====
-- What the drivers of the benches on the rising edge send.
use mathlib.Core.List.{append_assoc, append-nil}
use emac_zero.Base.{
  Bool, Option, [], arith, false, refl, some, true, ℕ, ◌&&◌, ◌++◌, ◌+◌, ◌-◌, ◌==◌, ◌∙◌, ◌∷◌, ◌≡◌,
  ◌<◌, ap, length,
}
use emac_zero.Base.Py.{Bytes}
use emac_zero.Bench.Bus.{Bus, IsLive, beat, drive, edge, edges, low, taken, ◌>>=◌}
use emac_zero.Bench.Posedge.{
  ready_edge, send_frame_posedge, send_posedge_from, send_posedge_style, send_rest,
}
use emac_zero.Bench.Transfer.{>>=-Adds, Adds, accept_beat-Adds, taken-low_edge, taken-low_edges}
use emac_zero.Saf.{marked}

pub last_index : (i n : ℕ) → i < n → (i == n - 1) ≡ (true && (i + 1 == n))
last_index i n h = ground arith

module _ (ready : ℕ → Bool) (fuel : ℕ) (live : IsLive ready fuel) where
  send_posedge_from-Adds :
      (bs : Bytes) (n k : ℕ) (bus : Bus)
      → k + length bs ≡ n
      → Adds ready (send_posedge_from ready fuel n k bs bus) bus (marked true n k bs)
  unfolding send_posedge_from marked
  send_posedge_from-Adds [] n k bus h = (low bus, refl, rw (append-nil (taken bus.trace)) refl)
  send_posedge_from-Adds (b ∷ bs) n k bus h = rw (last_index k n (omega arith)) (
      >>=-Adds ready _ _ bus ((b, true && (k + 1 == n)) ∷ []) (marked true n (k + 1) bs)
        (accept_beat-Adds ready fuel (drive (beat b (true && (k + 1 == n))) bus) b _ live refl)
        (λ bus'. send_posedge_from-Adds bs n (k + 1) bus' (omega arith)))

  -- If tready is high within every `fuel` edges that follow one another, the driver ends, and the
  -- beats taken are the bytes in order, with tlast on the last one alone.
  pub send_posedge_style-marked :
      (bs : Bytes) (bus : Bus)
      → Adds ready (send_posedge_style ready fuel bs bus) bus (marked true (length bs) 0 bs)
  unfolding send_posedge_style
  send_posedge_style-marked bs bus = send_posedge_from-Adds bs (length bs) 0 bus (omega arith)

  -- The rest is sent after the beat that stands on the signals.
  send_rest-Adds :
      (bs : Bytes) (n i b : ℕ) (last : Bool) (bus : Bus)
      → bus.now ≡ beat b last
      → i + length bs ≡ n
      → Adds ready
          (send_rest ready fuel n i bs bus >>= ready_edge ready fuel)
          bus
          ((b, last) ∷ marked true n i bs)
  unfolding send_rest marked ready_edge
  send_rest-Adds [] n i b last bus e h = accept_beat-Adds ready fuel bus b last live e
  send_rest-Adds (c ∷ bs) n i b last bus e h = rw (last_index i n (omega arith)) (
      let (bus', p, q) = accept_beat-Adds ready fuel bus b last live e in
      let (end, r, s) =
        send_rest-Adds bs n (i + 1) c (true && (i + 1 == n))
          (drive (beat c (true && (i + 1 == n))) bus') refl (omega arith) in
      (
        end,
        rw p r,
        s
            ∙ ap (λ t. t ++ ((c, true && (i + 1 == n)) ∷ marked true n (i + 1) bs)) q
            ∙ append_assoc (taken bus.trace) ((b, last) ∷ []) _,
      ))

  bind_assoc :
      (first : Option Bus) (f g : Bus → Option Bus)
      → (first >>= λ x. (f x >>= g)) ≡ ((first >>= f) >>= g)
  bind_assoc (some a) f g = refl
  bind_assoc Option.none f g = refl

  -- From signals with tvalid low, and with tready high within every `fuel` edges, the driver ends
  -- for a frame of one byte or more, and the beats taken are its bytes in order, with tlast on the
  -- last one alone.
  pub send_frame_posedge-marked :
      (idle_after b : ℕ) (bs : Bytes) (bus : Bus)
      → bus.now.tvalid ≡ false
      → Adds ready
          (send_frame_posedge ready fuel idle_after (b ∷ bs) bus)
          bus
          (marked true (length bs + 1) 0 (b ∷ bs))
  unfolding send_frame_posedge marked
  send_frame_posedge-marked idle_after b bs bus v =
      let n = length bs + 1 in
      let first = drive (beat b (n == 1)) (edge ready bus) in
      let (bus', p, q) = send_rest-Adds bs n 1 b (n == 1) first refl (omega arith) in
      let one : (n == 1) ≡ (1 == n) = ground arith in
      (
        edges ready idle_after (low bus'),
        bind_assoc (send_rest ready fuel n 1 bs first) (ready_edge ready fuel)
              (λ end. some (edges ready idle_after (low end)))
            ∙ rw p refl,
        taken-low_edges ready idle_after (low bus') refl
            ∙ q
            ∙ rw (taken-low_edge ready bus v, one) refl,
      )
