-- ===== src/Rx/Oversize.antt =====
-- Which frames the receive model takes for tagged, and which for oversize.
use emac_zero.Base.{
  Bool, [], ap, arith, drop, false, if◌then◌else◌, inl, inr, length, length-drop, length-take, ltb,
  not, refl, suc, sym, take, take-append-drop, true, drop-append, ℕ, ◌&&◌, ◌++◌, ◌+◌, ◌-◌, ◌<◌,
  ◌||◌, ◌∙◌, ◌↔◌, ◌∷◌, ◌≡◌, ◌⊎◌,
}
use emac_zero.Base.Py.{Bytes}
use emac_zero.Rx.{Limits, is_oversize, is_tagged}
use emac_zero.Scoreboard.{bytes_eq}
use emac_zero.Scoreboard.Verdict.{bytes_eq_iff}

-- The two addresses, and then the type of a C-VLAN or of an S-VLAN tag.
abbrev pub IsTagged : Bytes → Type 0
IsTagged payload =
    (addresses : Bytes) × (rest : Bytes) × (length addresses ≡ 12)
    × ((payload ≡ addresses ++ 0x81 ∷ 0x00 ∷ rest) ⊎ (payload ≡ addresses ++ 0x88 ∷ 0xA8 ∷ rest))

-- With its FCS the frame is longer than the standard allows, by 4 bytes more where it is tagged, and
-- jumbo frames are off or it is longer than they may be.
abbrev pub IsOversize : Limits → Bytes → Type 0
IsOversize lim payload =
    (lim.max_std < length payload + 4)
    × (IsTagged payload → lim.max_std + 4 < length payload + 4)
    × (lim.jumbo_en ≡ true → lim.max_jumbo < length payload + 4)

two_first :
    (p d : Bytes) (x y : ℕ)
    → drop 12 p ≡ d
    → take 2 d ≡ x ∷ y ∷ []
    → (rest : Bytes) × (length (take 12 p) ≡ 12) × (p ≡ take 12 p ++ x ∷ y ∷ rest)
two_first p [] x y e h = cc
two_first p (a ∷ []) x y e h = cc
two_first p (a ∷ b ∷ rest) x y e h =
    let same : a ∷ b ∷ [] ≡ x ∷ y ∷ [] = h in
    let first : a ≡ x = cc in
    let second : b ≡ y = cc in
    let long : length p - 12 ≡ suc (suc (length rest)) = sym (length-drop 12 p) ∙ ap length e in
    (
      rest,
      length-take 12 p ∙ grind (arith, long),
      sym (take-append-drop 12 p) ∙ ap (λ t. take 12 p ++ t) (e ∙ rw (first, second) refl),
    )

from_type :
    (p : Bytes) (x y : ℕ)
    → (bytes_eq (take 2 (drop 12 p)) (x ∷ y ∷ []) ≡ true) ↔ (
        (addresses : Bytes) × (rest : Bytes) × (length addresses ≡ 12)
        × (p ≡ addresses ++ x ∷ y ∷ rest))
from_type p x y = (
  λ h.
      let (rest, l, e) = two_first p (drop 12 p) x y refl ((bytes_eq_iff _ _).0 h) in
      (take 12 p, rest, l, e),
  λ (addresses, rest, l, e).
      (bytes_eq_iff (take 2 (drop 12 p)) (x ∷ y ∷ [])).1
        (ap (λ t. take 2 (drop 12 t)) e ∙ ap (take 2) (drop-append 12 addresses (x ∷ y ∷ rest) l)),
)

pub or_iff : (p q : Bool) → ((p || q) ≡ true) ↔ ((p ≡ true) ⊎ (q ≡ true))
or_iff true q = ((λ h. inl refl), (λ h. refl))
or_iff false q = ((λ h. inr h), (λ h. elim h [ inl e ↦ cc | inr e ↦ e ]))

pub is_tagged_iff : (payload : Bytes) → (is_tagged payload ≡ true) ↔ IsTagged payload
unfolding is_tagged
is_tagged_iff payload = (
  λ h. elim ((or_iff _ _).0 h) [
    | inl e ↦ let (a, r, l, q) = (from_type payload 0x81 0x00).0 e in (a, r, l, inl q)
    | inr e ↦ let (a, r, l, q) = (from_type payload 0x88 0xA8).0 e in (a, r, l, inr q)
  ],
  λ (a, r, l, q). (or_iff _ _).1 (elim q [
    | inl e ↦ inl ((from_type payload 0x81 0x00).1 (a, r, l, e))
    | inr e ↦ inr ((from_type payload 0x88 0xA8).1 (a, r, l, e))
  ]),
)

-- The test, by whether the frame is tagged and whether jumbo frames are on.
over_iff :
    (tagged jumbo : Bool) (count std most : ℕ)
    → ((ltb (std + (if tagged then 4 else 0)) count && (not jumbo || ltb most count)) ≡ true)
      ↔ ((std < count) × (tagged ≡ true → std + 4 < count) × (jumbo ≡ true → most < count))
over_iff true true count std most =
    ((λ h. ground (arith, h)), (λ (a, b, c). ground (arith, b refl, c refl)))
over_iff true false count std most =
    ((λ h. ground (arith, h)), (λ (a, b, c). ground (arith, b refl)))
over_iff false true count std most =
    ((λ h. ground (arith, h)), (λ (a, b, c). ground (arith, a, c refl)))
over_iff false false count std most = ((λ h. ground (arith, h)), (λ (a, b, c). ground (arith, a)))

pub is_oversize_iff :
    (lim : Limits) (payload : Bytes) → (is_oversize lim payload ≡ true) ↔ IsOversize lim payload
unfolding is_oversize
is_oversize_iff lim payload =
    let over =
      over_iff (is_tagged payload) lim.jumbo_en (length payload + 4) lim.max_std lim.max_jumbo in
    (
      λ h. let (a, b, c) = over.0 h in (a, λ t. b ((is_tagged_iff payload).1 t), c),
      λ (a, b, c). over.1 (a, λ t. b ((is_tagged_iff payload).0 t), c),
    )
