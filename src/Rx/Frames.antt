-- ===== src/Rx/Frames.antt =====
-- Which frames the MAC takes, and what `rx_expected` says of one that it takes.
use emac_zero.Base.{
  ==_iff, Bool, [], ap, arith, false, inl, inr, length, not, refl, sym, take, true, ℕ, ◌%◌, ◌&&◌,
  ◌+◌, ◌-◌, ◌<◌, ◌==◌, ◌^◌, ◌||◌, ◌∙◌, ◌↔◌, ◌∷◌, ◌≡◌, ◌⊎◌,
}
use emac_zero.Base.Py.{Bytes, from_bytes, ok}
use emac_zero.Rx.{
  AxisFrame, Limits, RxFrame, Stat, axis_of, broadcast, dst_int, expect_frame, filter_pass,
  group_bit, is_oversize, stat_of,
}
use emac_zero.Rx.Oversize.{IsOversize, is_oversize_iff, or_iff}

-- The destination, and whether it is the broadcast address.
abbrev pub address : Bytes → ℕ
address payload = from_bytes 0 (take 6 payload)

abbrev pub IsBroadcast : Bytes → Type 0
IsBroadcast payload = address payload ≡ 2 ^ 48 - 1

-- The lowest bit of the first byte on the wire.
abbrev pub IsGroup : Bytes → Type 0
IsGroup payload = (b : ℕ) × (rest : Bytes) × (payload ≡ b ∷ rest) × (b % 2 ≡ 1)

-- The MAC takes the frame.
abbrev pub IsWanted : ℕ → Bool → Bool → Bytes → Type 0
IsWanted our_mac promisc passthrough payload =
    (promisc ≡ true) ⊎ ((passthrough ≡ true) ⊎ ((address payload ≡ our_mac) ⊎ IsBroadcast payload))

-- What is expected of a frame on m_axis: its payload, and an error for a bad FCS, an alignment error or
-- a size over the limits.
abbrev pub IsDelivered : Limits → RxFrame → AxisFrame → Type 0
IsDelivered lim fr a =
    (a.payload ≡ fr.payload)
    × ((a.terror ≡ true)
        ↔ ((fr.corrupt_fcs ≡ true) ⊎ ((fr.align_err ≡ true) ⊎ IsOversize lim fr.payload)))

-- What is expected of its statistics: the length with the FCS, the causes of the error one by one,
-- and broadcast and multicast apart.
abbrev pub IsCounted : Limits → RxFrame → Stat → Type 0
IsCounted lim fr s =
    (s.len ≡ length fr.payload + 4)
    × (s.fcs ≡ fr.corrupt_fcs)
    × (s.align ≡ fr.align_err)
    × (s.overflow ≡ false)
    × ((s.oversize ≡ true) ↔ IsOversize lim fr.payload)
    × ((s.bcast ≡ true) ↔ IsBroadcast fr.payload)
    × ((s.mcast ≡ true) ↔ (IsGroup fr.payload × (IsBroadcast fr.payload → ⊥)))

dst_iff : (payload : Bytes) (n : ℕ) → ((dst_int payload == n) ≡ true) ↔ (address payload ≡ n)
unfolding dst_int
dst_iff payload n = ==_iff (address payload) n

pub filter_pass_iff :
    (payload : Bytes) (our_mac : ℕ) (promisc passthrough : Bool)
    → (filter_pass payload our_mac promisc passthrough ≡ true)
      ↔ IsWanted our_mac promisc passthrough payload
unfolding filter_pass
filter_pass_iff payload our_mac true passthrough = ((λ h. inl refl), (λ h. refl))
filter_pass_iff payload our_mac false true = ((λ h. inr (inl refl)), (λ h. refl))
filter_pass_iff payload our_mac false false =
    let either = or_iff (dst_int payload == our_mac) (dst_int payload == broadcast) in
    let ours = dst_iff payload our_mac in
    let all = dst_iff payload broadcast in
    (
      (λ h. inr (inr (elim (either.0 h) [ inl e ↦ inl (ours.0 e) | inr e ↦ inr (all.0 e) ]))),
      (λ h. elim h [
        | inl e ↦ absurd (off e)
        | inr (inl e) ↦ absurd (off e)
        | inr (inr (inl e)) ↦ either.1 (inl (ours.1 e))
        | inr (inr (inr e)) ↦ either.1 (inr (all.1 e))
      ]),
    )
  where
    off : false ≡ true → ⊥
    off e = cc

axis_of-IsDelivered : (lim : Limits) (fr : RxFrame) → IsDelivered lim fr (axis_of lim fr)
axis_of-IsDelivered lim fr =
    let outer = or_iff fr.corrupt_fcs (fr.align_err || is_oversize lim fr.payload) in
    let inner = or_iff fr.align_err (is_oversize lim fr.payload) in
    let over = is_oversize_iff lim fr.payload in
    (
      refl,
      (
        (λ h. elim (outer.0 h) [
          | inl e ↦ inl e
          | inr e ↦ inr (elim (inner.0 e) [ inl x ↦ inl x | inr x ↦ inr (over.0 x) ])
        ]),
        (λ h. elim h [
          | inl e ↦ outer.1 (inl e)
          | inr (inl e) ↦ outer.1 (inr (inner.1 (inl e)))
          | inr (inr x) ↦ outer.1 (inr (inner.1 (inr (over.1 x))))
        ]),
      ),
    )

-- A first byte that is odd, of a frame that is not a broadcast.
mcast_iff :
    (group bcast : Bool) {G B : Type 0}
    → (group ≡ true) ↔ G
    → (bcast ≡ true) ↔ B
    → ((group && not bcast) ≡ true) ↔ (G × (B → ⊥))
mcast_iff true true g b = ((λ h. cc), (λ (x, n). absurd (n (b.0 refl))))
mcast_iff true false g b = ((λ h. (g.0 refl, λ y. off (b.1 y))), (λ h. refl))
  where
    off : false ≡ true → ⊥
    off e = cc
mcast_iff false c g b = ((λ h. cc), (λ (x, n). g.1 x))

IsGroup-iff :
    (payload : Bytes) (b : ℕ) (rest : Bytes)
    → payload ≡ b ∷ rest
    → ((b % 2 == 1) ≡ true) ↔ IsGroup payload
IsGroup-iff payload b rest e = (
  (λ h. (b, rest, e, (==_iff (b % 2) 1).0 h)),
  (λ (c, more, f, h).
      let both : c ∷ more ≡ b ∷ rest = sym f ∙ e in
      let same : c ≡ b = cc in (==_iff (b % 2) 1).1 (ap (λ x. x % 2) (sym same) ∙ h)),
)

stat_of-IsCounted :
    (lim : Limits) (fr : RxFrame) (b : ℕ) (rest : Bytes)
    → fr.payload ≡ b ∷ rest
    → IsCounted lim fr (stat_of lim fr (b % 2 == 1))
stat_of-IsCounted lim fr b rest e =
    let bcast = dst_iff fr.payload broadcast in
    (
      refl,
      refl,
      refl,
      refl,
      is_oversize_iff lim fr.payload,
      bcast,
      mcast_iff (b % 2 == 1) (dst_int fr.payload == broadcast) (IsGroup-iff fr.payload b rest e)
          bcast,
    )

pub frame_ok :
    (lim : Limits) (fr : RxFrame)
    → 0 < length fr.payload
    → (a : AxisFrame) × (s : Stat) × (expect_frame lim fr ≡ ok (a, s))
      × IsDelivered lim fr a
      × IsCounted lim fr s
frame_ok lim fr h = by_payload fr.payload refl
  where
    by_payload :
        (bs : Bytes)
        → fr.payload ≡ bs
        → (a : AxisFrame) × (s : Stat) × (expect_frame lim fr ≡ ok (a, s))
          × IsDelivered lim fr a
          × IsCounted lim fr s
    by_payload [] e = let k : 0 < length {A = ℕ} [] = rw e at h in absurd (omega arith)
    by_payload (b ∷ bs) e =
        let g : group_bit fr.payload ≡ ok (b % 2 == 1) = unfold group_bit in rw e refl in
        let named : expect_frame lim fr ≡ ok (axis_of lim fr, stat_of lim fr (b % 2 == 1)) =
          unfold expect_frame in rw g refl in
        (
          axis_of lim fr,
          stat_of lim fr (b % 2 == 1),
          named,
          axis_of-IsDelivered lim fr,
          stat_of-IsCounted lim fr b bs e,
        )
