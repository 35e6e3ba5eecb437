-- ===== src/Rx/Policy.antt =====
-- What `rx_expected` says of the frames of a run.
use mathlib.Core.List.{append_assoc, append-nil}
use emac_zero.Base.{
  Bool, Bool-cases, List, [], false, inl, inr, length, refl, sym, true, ℕ, ◌++◌, ◌<◌, ◌∙◌, ◌∷◌, ◌≡◌,
}
use emac_zero.Base.Predicates.{All}
use emac_zero.Base.Py.{ok}
use emac_zero.Rx.{AxisFrame, Limits, RxFrame, Stat, filter_pass, rx_expected, rx_loop}
use emac_zero.Rx.Frames.{IsCounted, IsDelivered, IsWanted, filter_pass_iff, frame_ok}

-- The frames of a run with what is expected of them, in their order: of a frame that the MAC does not
-- take, nothing.
pub data Reported (our_mac : ℕ) (promisc passthrough : Bool) (lim : Limits)
    : List RxFrame → List AxisFrame → List Stat → Type 0 where
  none_left : Reported our_mac promisc passthrough lim [] [] []
  dropped :
      (fr : RxFrame) {frs : List RxFrame} {axis : List AxisFrame} {ss : List Stat}
      → (IsWanted our_mac promisc passthrough fr.payload → ⊥)
      → Reported our_mac promisc passthrough lim frs axis ss
      → Reported our_mac promisc passthrough lim (fr ∷ frs) axis ss
  taken :
      (fr : RxFrame) (a : AxisFrame) (s : Stat) {frs : List RxFrame} {axis : List AxisFrame}
      {ss : List Stat}
      → IsWanted our_mac promisc passthrough fr.payload
      → IsDelivered lim fr a
      → IsCounted lim fr s
      → Reported our_mac promisc passthrough lim frs axis ss
      → Reported our_mac promisc passthrough lim (fr ∷ frs) (a ∷ axis) (s ∷ ss)

-- No frame that the MAC takes is empty.
abbrev pub AreLong : ℕ → Bool → Bool → List RxFrame → Type 0
AreLong our_mac promisc passthrough frames =
    All (λ fr. IsWanted our_mac promisc passthrough fr.payload → 0 < length fr.payload) frames

module _ (our_mac : ℕ) (promisc passthrough : Bool) (lim : Limits) where
  -- What the loop adds to its two lists.
  abbrev Adds : List RxFrame → List AxisFrame → List Stat → Type 0
  Adds frames axis stats =
      (new : List AxisFrame) × (more : List Stat) × (rx_loop our_mac promisc passthrough lim frames
          axis stats
        ≡ ok (axis ++ new, stats ++ more))
      × Reported our_mac promisc passthrough lim frames new more

  rx_loop-Adds :
      (frames : List RxFrame) (axis : List AxisFrame) (stats : List Stat)
      → AreLong our_mac promisc passthrough frames
      → Adds frames axis stats
  unfolding rx_loop
  rx_loop-Adds [] axis stats h = ([], [], rw (append-nil axis, append-nil stats) refl, none_left)
  rx_loop-Adds (fr ∷ frs) axis stats h =
      elim (Bool-cases (filter_pass fr.payload our_mac promisc passthrough)) [
        | inr skip ↦
            let unwanted : IsWanted our_mac promisc passthrough fr.payload → ⊥ = (λ w.
              off (sym skip ∙ (filter_pass_iff fr.payload our_mac promisc passthrough).1 w)) in
            let (new, more, e, r) = rx_loop-Adds frs axis stats h.1 in
            (new, more, rw (skip, rx_loop) e, dropped fr unwanted r)
        | inl pass ↦
            let wanted = (filter_pass_iff fr.payload our_mac promisc passthrough).0 pass in
            let (a, s, ea, d, c) = frame_ok lim fr (h.0 wanted) in
            let (new, more, e, r) = rx_loop-Adds frs (axis ++ a ∷ []) (stats ++ s ∷ []) h.1 in
            (
              a ∷ new,
              s ∷ more,
              rw (pass, rx_loop, ea)
                  (rw (append_assoc axis (a ∷ []) new, append_assoc stats (s ∷ []) more) at e),
              taken fr a s wanted d c r,
            )
      ]
    where
      off : false ≡ true → ⊥
      off e = cc

  -- Where no frame that the MAC takes is empty, the model answers, and it reports those frames alone, in
  -- their order. A frame is taken if its address is the MAC's or the broadcast address, or one of the
  -- two switches is on. Its payload comes unchanged, with an error exactly if the FCS is bad, it is not
  -- aligned or it is oversize: longer with its FCS than the standard limit, than 4 bytes more if it
  -- has a VLAN tag, and than the jumbo limit if jumbo frames are on. Its statistics have its length
  -- with the FCS, these causes one by one, broadcast, and multicast exactly if its first byte is odd
  -- and it is no broadcast.
  pub rx_expected-Reported :
      (frames : List RxFrame)
      → AreLong our_mac promisc passthrough frames
      → (axis : List AxisFrame) × (stats : List Stat) × (rx_expected frames our_mac promisc
            passthrough lim
          ≡ ok (axis, stats))
        × Reported our_mac promisc passthrough lim frames axis stats
  unfolding rx_expected
  rx_expected-Reported frames h = rx_loop-Adds frames [] [] h
