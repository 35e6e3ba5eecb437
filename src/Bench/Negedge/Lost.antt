-- ===== src/Bench/Negedge/Lost.antt =====
-- What the drivers on the falling edge send, and when they lose the first byte.
use mathlib.Core.List.{append_assoc, append-nil}
use emac_zero.Base.{
  Bool, List, Option, [], ap, arith, false, if◌then◌else◌, length, refl, some, suc, true, zero, ℕ,
  ◌&&◌, ◌++◌, ◌+◌, ◌-◌, ◌==◌, ◌∙◌, ◌∷◌, ◌≡◌, ◌≤◌,
}
use emac_zero.Base.Py.{Bytes}
use emac_zero.Bench.Bus.{Bus, IsLive, Waits, at_once, beat, drive, edge, later, low, taken}
use emac_zero.Bench.Negedge.{hold_until, send_negedge_from, send_negedge_style}
use emac_zero.Bench.Posedge.Sent.{last_index}
use emac_zero.Bench.Transfer.{Adds, taken-edge, taken-held_edge}
use emac_zero.Saf.{marked}

module _ (ready : ℕ → Bool) where
  hold_now :
      (fuel rounds : ℕ) (bus : Bus)
      → ready bus.time ≡ true
      → hold_until ready fuel (suc rounds) bus ≡ some bus
  unfolding hold_until
  hold_now fuel rounds bus r = rw r refl

  hold_on :
      (fuel rounds : ℕ) (bus : Bus)
      → ready bus.time ≡ false
      → hold_until ready fuel (suc rounds) bus ≡ hold_until ready fuel rounds (edge ready bus)
  unfolding hold_until
  hold_on fuel rounds bus r = rw r refl

  -- The wait transfers nothing: it ends before the edge that tready is high at.
  hold_until-Waits :
      (fuel rounds : ℕ) (bus : Bus) {t d : ℕ}
      → bus.time ≡ t
      → Waits ready t d
      → suc d ≤ rounds
      → (bus' : Bus) × (hold_until ready fuel rounds bus ≡ some bus')
        × (ready bus'.time ≡ true)
        × (taken bus'.trace ≡ taken bus.trace)
  hold_until-Waits fuel zero bus e w h = absurd (omega arith)
  hold_until-Waits fuel (suc rounds) bus e (at_once {t = t} y) h =
      let r : ready bus.time ≡ true = rw e y in (bus, hold_now fuel rounds bus r, r, refl)
  hold_until-Waits fuel (suc rounds) bus e (later {t = t} {d = d} n w) h =
      let r : ready bus.time ≡ false = rw e n in
      let (bus', p, q, s) =
        hold_until-Waits fuel rounds (edge ready bus) (ap suc e) w (omega arith) in
      (bus', hold_on fuel rounds bus r ∙ p, q, s ∙ taken-held_edge ready bus r)

  module _ (fuel : ℕ) (live : IsLive ready fuel) where
    -- A beat on the signals, the edge after it, and the wait: what is taken is taken at this edge.
    one_beat :
        (bus : Bus) (beats : List (ℕ × Bool))
        → taken (edge ready bus).trace ≡ taken bus.trace ++ beats
        → (bus' : Bus) × (hold_until ready fuel fuel (edge ready bus) ≡ some bus')
          × (ready bus'.time ≡ true)
          × (taken bus'.trace ≡ taken bus.trace ++ beats)
    one_beat bus beats h =
        let (d, less, w) = live (suc bus.time) in
        let (bus', p, r, s) = hold_until-Waits fuel fuel (edge ready bus) refl w less in
        (bus', p, r, s ∙ h)

    send_negedge_from-Adds :
        (bs : Bytes) (n k : ℕ) (bus : Bus)
        → k + length bs ≡ n
        → ready bus.time ≡ true
        → Adds ready (send_negedge_from ready fuel n k bs bus) bus (marked true n k bs)
    unfolding send_negedge_from marked
    send_negedge_from-Adds [] n k bus h r = (low bus, refl, rw (append-nil (taken bus.trace)) refl)
    send_negedge_from-Adds (b ∷ bs) n k bus h r =
        let last = true && (k + 1 == n) in
        let driven = drive (beat b last) bus in
        let (bus', p, q, s) =
          one_beat driven ((b, last) ∷ []) (taken-edge ready driven b last refl r) in
        let (end, u, v) = send_negedge_from-Adds bs n (k + 1) bus' (omega arith) q in
        rw (last_index k n (omega arith)) (
          end,
          rw p u,
          v
              ∙ ap (λ x. x ++ marked true n (k + 1) bs) s
              ∙ append_assoc (taken bus.trace) ((b, last) ∷ []) _,
        )

    lost :
        (b : ℕ) (bs : Bytes) (n : ℕ) (bus : Bus)
        → length (b ∷ bs) ≡ n
        → ready bus.time ≡ false
        → Adds ready (send_negedge_from ready fuel n 0 (b ∷ bs) bus) bus (marked true n (0 + 1) bs)
    unfolding send_negedge_from
    lost b bs n bus h r =
        let driven = drive (beat b (0 == n - 1)) bus in
        let none_taken : taken (edge ready driven).trace ≡ taken driven.trace ++ [] =
          taken-held_edge ready driven r ∙ rw (append-nil (taken bus.trace)) refl in
        let (bus', p, q, s) = one_beat driven [] none_taken in
        let (end, u, v) = send_negedge_from-Adds bs n (0 + 1) bus' (omega arith) q in
        (
          end,
          rw p u,
          v ∙ ap (λ x. x ++ marked true n (0 + 1) bs) (s ∙ append-nil (taken bus.trace)),
        )

    if_Adds :
        (result : Option Bus) (bus : Bus) (c : Bool) (xs ys : List (ℕ × Bool))
        → (c ≡ true → Adds ready result bus xs)
        → (c ≡ false → Adds ready result bus ys)
        → Adds ready result bus (if c then xs else ys)
    if_Adds result bus true xs ys f g = f refl
    if_Adds result bus false xs ys f g = g refl

    -- Where tready is high within every `fuel` edges that follow one another, the driver ends for a
    -- frame of one byte or more. If tready is high at the first rising edge that it meets, the beats
    -- taken are the bytes in order, with tlast on the last one alone. If tready is low there, the
    -- first byte is never taken, and the beats are those of the other bytes.
    pub send_negedge_style-first :
        (b : ℕ) (bs : Bytes) (bus : Bus)
        → Adds ready (send_negedge_style ready fuel (b ∷ bs) bus) bus (
            if ready bus.time
            then marked true (length (b ∷ bs)) 0 (b ∷ bs)
            else marked true (length (b ∷ bs)) (0 + 1) bs)
    unfolding send_negedge_style
    send_negedge_style-first b bs bus =
        let n = length (b ∷ bs) in
        if_Adds _ bus (ready bus.time) (marked true n 0 (b ∷ bs)) (marked true n (0 + 1) bs)
          (send_negedge_from-Adds (b ∷ bs) n 0 bus (omega arith)) (lost b bs n bus refl)
