-- ===== src/Bench/Paced/Whole.antt =====
-- `saf_send_frame` against a design that does not stall for ever.
use mathlib.Core.List.{append_assoc}
use emac_zero.Base.{
  Bool, Bool-cases, List, [], arith, false, inl, inr, ltb, lt→ltb, refl, some, suc, true, zero, ℕ,
  ◌%◌, ◌&&◌, ◌*◌, ◌++◌, ◌+◌, ◌-◌, ◌/◌, ◌<◌, ◌==◌, ==-self, ◌∙◌, ◌∷◌, ◌≡◌, ap, sym,
}
use emac_zero.Bench.Bus.{Bus, IsLive, Waits, at_once, beat, drive, edge, later, low, taken}
use emac_zero.Bench.Paced.{
  Pace, after_byte, bubbled, ends_frame, goes_on, not_valid, saf_send_frame, send_loop, trailed,
  within,
}
use emac_zero.Bench.Transfer.{taken-edge, taken-held_edge, taken-low_edge, taken-low_edges}

-- The watchdog, if there is one, waits for `n` edges at least.
abbrev pub Patient : Pace → ℕ → Type 0
Patient p n = (stall : ℕ) → stall < n → within stall p.watchdog ≡ true

-- The `m` beats from byte `k` on, for `k` above 0.
abbrev pub beats_from : Pace → ℕ → ℕ → List (ℕ × Bool)
beats_from p k zero = []
beats_from p k (suc m) = (k % 256, ends_frame p k) ∷ beats_from p (k + 1) m

module _ (ready : ℕ → Bool) (p : Pace) where
  taken-bubbled : (k : ℕ) (bus : Bus) → taken (bubbled ready p k bus).trace ≡ taken bus.trace
  unfolding bubbled
  taken-bubbled k bus =
      let one = taken-low_edge ready (not_valid bus) refl in
      let many = taken-low_edges ready 40 (not_valid bus) refl in
      elim (Bool-cases (p.bub == 1)) [
        | inl y ↦ rw y one
        | inr n ↦ elim (Bool-cases ((p.bub == 2) && (k == p.plen / 2))) [
          | inl y ↦ rw (n, y) many
          | inr m ↦ rw (n, m) refl
        ]
      ]

  -- Before the last byte, `after_byte` puts the next one on the signals.
  after_byte-more :
      (k : ℕ) (bus : Bus)
      → k < p.plen
      → ((after_byte ready p k bus).now ≡ beat (k % 256) (ends_frame p k))
        × (taken (after_byte ready p k bus).trace ≡ taken bus.trace)
  unfolding after_byte
  after_byte-more k bus h =
      let ne : (k == p.plen) ≡ false = ground arith in (rw ne refl, rw ne (taken-bubbled k bus))

  after_byte-all : (bus : Bus) → after_byte ready p p.plen bus ≡ low bus
  unfolding after_byte
  after_byte-all bus = rw (==-self p.plen) refl

  taken-trailed :
      (bus : Bus) → bus.now.tvalid ≡ false → taken (trailed ready p bus).trace ≡ taken bus.trace
  unfolding trailed
  taken-trailed bus v = elim (Bool-cases p.trailing_idle) [
    | inl y ↦ rw y (taken-low_edge ready bus v)
    | inr n ↦ rw n refl
  ]

  loop_ends :
      (fuel : ℕ) (bus : Bus) → send_loop ready p (suc fuel) p.plen 0 bus ≡ some (p.plen, bus)
  unfolding send_loop goes_on
  loop_ends fuel bus = let e : ltb p.plen p.plen ≡ false = ground arith in rw e refl

  module _ (n : ℕ) (patient : Patient p n) where
    loop_taken :
        (fuel k stall : ℕ) (bus : Bus)
        → k < p.plen
        → stall < n
        → ready bus.time ≡ true
        → send_loop ready p (suc fuel) k stall bus
          ≡ send_loop ready p fuel (k + 1) 0 (after_byte ready p (k + 1) (edge ready bus))
    unfolding send_loop goes_on
    loop_taken fuel k stall bus h s r = rw (lt→ltb k p.plen h, patient stall s, r) refl

    loop_stalled :
        (fuel k stall : ℕ) (bus : Bus)
        → k < p.plen
        → stall < n
        → ready bus.time ≡ false
        → send_loop ready p (suc fuel) k stall bus
          ≡ send_loop ready p fuel k (stall + 1) (edge ready bus)
    unfolding send_loop goes_on
    loop_stalled fuel k stall bus h s r = rw (lt→ltb k p.plen h, patient stall s, r) refl

    -- The rounds up to the transfer of a beat.
    loop-Waits :
        (fuel k stall : ℕ) (bus : Bus) (b : ℕ) (last : Bool) {t d : ℕ}
        → bus.now ≡ beat b last
        → bus.time ≡ t
        → Waits ready t d
        → k < p.plen
        → stall + d < n
        → d < fuel
        → (bus' : Bus) × (send_loop ready p fuel k stall bus
            ≡ send_loop ready p (fuel - suc d) (k + 1) 0 (after_byte ready p (k + 1) bus'))
          × (taken bus'.trace ≡ taken bus.trace ++ (b, last) ∷ [])
    loop-Waits zero k stall bus b last e g w h s f = absurd (omega arith)
    loop-Waits (suc fuel) k stall bus b last e g (at_once {t = t} y) h s f =
        let r : ready bus.time ≡ true = rw g y in
        let less : fuel ≡ suc fuel - 1 = omega arith in
        let out = after_byte ready p (k + 1) (edge ready bus) in
        (
          edge ready bus,
          loop_taken fuel k stall bus h (omega arith) r
              ∙ ap (λ f. send_loop ready p f (k + 1) 0 out) less,
          taken-edge ready bus b last e r,
        )
    loop-Waits (suc fuel) k stall bus b last e g (later {t = t} {d = d} y w) h s f =
        let r : ready bus.time ≡ false = rw g y in
        let (bus', u, v) =
          loop-Waits fuel k (stall + 1) (edge ready bus) b last e (ap suc g) w h (omega arith)
            (omega arith) in
        let less : fuel - suc d ≡ suc fuel - suc (suc d) = omega arith in
        (
          bus',
          loop_stalled fuel k stall bus h (omega arith) r
              ∙ (u
                  ∙ ap (λ f. send_loop ready p f (k + 1) 0 (after_byte ready p (k + 1) bus')) less),
          v ∙ ap (λ x. x ++ (b, last) ∷ []) (taken-held_edge ready bus r),
        )

    module _ (live : IsLive ready n) where
      loop_whole :
          (m fuel k : ℕ) (bus : Bus) (b : ℕ) (last : Bool)
          → bus.now ≡ beat b last
          → k + suc m ≡ p.plen
          → suc m * n < fuel
          → (bus' : Bus) × (send_loop ready p fuel k 0 bus ≡ some (p.plen, bus'))
            × (bus'.now.tvalid ≡ false)
            × (taken bus'.trace ≡ taken bus.trace ++ (b, last) ∷ beats_from p (k + 1) m)
      loop_whole zero fuel k bus b last e g f =
          let (d, h, w) = live bus.time in
          let (bus1, u, v) =
            loop-Waits fuel k 0 bus b last e refl w (omega arith) (omega arith) (omega arith) in
          let full : k + 1 ≡ p.plen = omega arith in
          let left : suc (fuel - suc d - 1) ≡ fuel - suc d = omega arith in
          (
            low bus1,
            u
                ∙ rw (full, after_byte-all bus1)
                    (ap (λ f. send_loop ready p f p.plen 0 (low bus1)) (sym left)
                      ∙ loop_ends (fuel - suc d - 1) (low bus1)),
            refl,
            v,
          )
      loop_whole (suc m) fuel k bus b last e g f =
          let (d, h, w) = live bus.time in
          let (bus1, u, v) =
            loop-Waits fuel k 0 bus b last e refl w (omega arith) (omega arith) (omega arith) in
          let (now, same) = after_byte-more (k + 1) bus1 (omega arith) in
          let (bus2, x, y, z) =
            loop_whole m (fuel - suc d) (k + 1) (after_byte ready p (k + 1) bus1) ((k + 1) % 256)
              (ends_frame p (k + 1)) now (omega arith) (omega arith) in
          (
            bus2,
            u ∙ x,
            y,
            z
                ∙ ap (λ t. t ++ ((k + 1) % 256, ends_frame p (k + 1)) ∷ beats_from p (k + 1 + 1) m)
                    (same ∙ v)
                ∙ append_assoc (taken bus.trace) ((b, last) ∷ []) _,
          )

    -- If tready is high within every `n` edges that follow one another, and the watchdog waits for
    -- `n` edges at least, `saf_send_frame` ends within `plen * n + 1` rounds and returns `plen`, for
    -- each kind of bubble, and the beats taken are `first` and then the bytes 1 to plen - 1 modulo
    -- 256, each once and in order, with tlast on the last one exactly if `set_last` asks for it.
    pub saf_send_frame-whole :
        (fuel : ℕ) (bus : Bus)
        → IsLive ready n
        → 0 < p.plen
        → p.plen * n < fuel
        → (bus' : Bus) × (saf_send_frame ready p fuel bus ≡ some (p.plen, bus'))
          × (taken bus'.trace
              ≡ taken bus.trace
                ++ (p.first % 256, p.set_last && (p.plen == 1)) ∷ beats_from p 1 (p.plen - 1))
    unfolding saf_send_frame
    saf_send_frame-whole fuel bus live pos f =
        let first = beat (p.first % 256) (p.set_last && (p.plen == 1)) in
        let size : suc (p.plen - 1) ≡ p.plen = omega arith in
        let enough : suc (p.plen - 1) * n < fuel = rw size f in
        let (bus1, u, v, w) =
          loop_whole live (p.plen - 1) fuel 0 (drive first bus) first.tdata first.tlast refl
            (omega arith) enough in
        (trailed ready p bus1, rw u refl, taken-trailed bus1 v ∙ w)
