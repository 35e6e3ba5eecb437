-- ===== src/Rx/Verdict.antt =====
-- When the receive scoreboard passes.
use emac_zero.Base.{
  ==_iff, Bool, List, [], ap, arith, false, length, refl, suc, sym, true, ℕ, ◌++◌, ◌+◌, ◌==◌, ◌↔◌,
  ◌∷◌, ◌≡◌,
}
use emac_zero.Rx.{
  AxisFrame, GotFrame, RxMessage, RxScoreboard, Stat, axis_count, axis_errors, axis_frame_errors,
  bool_eq, check_axis, check_stats, no_messages, rx_check, stat_count, stat_errors,
  stat_frame_errors, unless,
}
use emac_zero.Scoreboard.Verdict.{bytes_eq_iff}

-- What `_check_axis` compares of an expected and a received frame, and `_check_stats` of two
-- statistics: not the overflow flag.
abbrev pub SameFrame : AxisFrame → GotFrame → Type 0
SameFrame e g = (g.payload ≡ e.payload) × ((g.terror ≡ e.terror) × (g.sof ≡ true))

abbrev pub SameStat : Stat → Stat → Type 0
SameStat e g =
    (g.len ≡ e.len)
    × ((g.fcs ≡ e.fcs)
        × ((g.align ≡ e.align)
            × ((g.oversize ≡ e.oversize) × ((g.bcast ≡ e.bcast) × (g.mcast ≡ e.mcast)))))

-- Two lists of one length, related entry by entry.
abbrev pub Pairwise : {A B : Type 0} → (A → B → Type 0) → List A → List B → Type 0
Pairwise R [] [] = Unit {0}
Pairwise R [] (b ∷ bs) = ⊥
Pairwise R (a ∷ axs) [] = ⊥
Pairwise R (a ∷ axs) (b ∷ bs) = R a b × Pairwise R axs bs

bool_eq_iff : (a b : Bool) → (bool_eq a b ≡ true) ↔ (b ≡ a)
bool_eq_iff true b = (λ h. h, λ h. h)
bool_eq_iff false true = (λ h. cc, λ h. cc)
bool_eq_iff false false = (λ h. refl, λ h. refl)

unless_nil : (b : Bool) (m : RxMessage) → (unless b m ≡ []) ↔ (b ≡ true)
unless_nil true m = (λ h. refl, λ h. refl)
unless_nil false m = (λ h. cc, λ h. cc)

append_nil_iff : (xs ys : List RxMessage) → (xs ++ ys ≡ []) ↔ ((xs ≡ []) × (ys ≡ []))
append_nil_iff [] ys = (λ h. (refl, h), λ h. h.1)
append_nil_iff (x ∷ xs) ys = (λ h. cc, λ h. cc)

-- A part of the messages is missing exactly if its test passed.
part_iff :
    (b : Bool) (m : RxMessage) (ms : List RxMessage) {P Q : Type 0}
    → (b ≡ true) ↔ P
    → (ms ≡ []) ↔ Q
    → (unless b m ++ ms ≡ []) ↔ (P × Q)
part_iff b m ms p q = (
  λ h. let (x, y) = (append_nil_iff (unless b m) ms).0 h in (p.0 ((unless_nil b m).0 x), q.0 y),
  λ h. (append_nil_iff (unless b m) ms).1 ((unless_nil b m).1 (p.1 h.0), q.1 h.1),
)

last_iff : (b : Bool) (m : RxMessage) {P : Type 0} → (b ≡ true) ↔ P → (unless b m ≡ []) ↔ P
last_iff b m p = (λ h. p.0 ((unless_nil b m).0 h), λ h. (unless_nil b m).1 (p.1 h))

flip : {A : Type 0} {x y : A} {P : Type 0} → P ↔ (x ≡ y) → P ↔ (y ≡ x)
flip h = (λ p. sym (h.0 p), λ e. h.1 (sym e))

same : (b : Bool) → (b ≡ true) ↔ (b ≡ true)
same b = (λ h. h, λ h. h)

frame_iff : (i : ℕ) (e : AxisFrame) (g : GotFrame) → (axis_frame_errors i e g ≡ []) ↔ SameFrame e g
unfolding axis_frame_errors
frame_iff i e g =
    part_iff _ _ _ (flip (bytes_eq_iff e.payload g.payload))
      (part_iff _ _ _ (bool_eq_iff e.terror g.terror) (last_iff _ _ (same g.sof)))

stat_iff : (i : ℕ) (e g : Stat) → (stat_frame_errors i e g ≡ []) ↔ SameStat e g
unfolding stat_frame_errors
stat_iff i e g = part_iff _ _ _ (flip (==_iff e.len g.len)) (
    part_iff _ _ _ (bool_eq_iff e.fcs g.fcs) (
      part_iff _ _ _ (bool_eq_iff e.align g.align) (
        part_iff _ _ _ (bool_eq_iff e.oversize g.oversize) (
          part_iff _ _ _ (bool_eq_iff e.bcast g.bcast)
            (last_iff _ _ (bool_eq_iff e.mcast g.mcast))))))

axis_iff :
    (i : ℕ) (es : List AxisFrame) (gs : List GotFrame)
    → length gs ≡ length es
    → (axis_errors i es gs ≡ []) ↔ Pairwise SameFrame es gs
unfolding axis_errors
axis_iff i [] [] n = (λ h. tt, λ h. refl)
axis_iff i [] (g ∷ gs) n = absurd (omega arith)
axis_iff i (e ∷ es) [] n = absurd (omega arith)
axis_iff i (e ∷ es) (g ∷ gs) n =
    let f = frame_iff i e g in
    let r = axis_iff (i + 1) es gs (omega arith) in
    let a = append_nil_iff (axis_frame_errors i e g) (axis_errors (i + 1) es gs) in
    (λ h. (f.0 (a.0 h).0, r.0 (a.0 h).1), λ h. a.1 (f.1 h.0, r.1 h.1))

stats_iff :
    (i : ℕ) (es gs : List Stat)
    → length gs ≡ length es
    → (stat_errors i es gs ≡ []) ↔ Pairwise SameStat es gs
unfolding stat_errors
stats_iff i [] [] n = (λ h. tt, λ h. refl)
stats_iff i [] (g ∷ gs) n = absurd (omega arith)
stats_iff i (e ∷ es) [] n = absurd (omega arith)
stats_iff i (e ∷ es) (g ∷ gs) n =
    let f = stat_iff i e g in
    let r = stats_iff (i + 1) es gs (omega arith) in
    let a = append_nil_iff (stat_frame_errors i e g) (stat_errors (i + 1) es gs) in
    (λ h. (f.0 (a.0 h).0, r.0 (a.0 h).1), λ h. a.1 (f.1 h.0, r.1 h.1))

Pairwise-length :
    {A B : Type 0} (R : A → B → Type 0) (axs : List A) (bs : List B)
    → Pairwise R axs bs
    → length bs ≡ length axs
Pairwise-length R [] [] h = refl
Pairwise-length R [] (b ∷ bs) h = absurd h
Pairwise-length R (a ∷ axs) [] h = absurd h
Pairwise-length R (a ∷ axs) (b ∷ bs) h = ap suc (Pairwise-length R axs bs h.1)

-- A comparison of two lists, its count included.
all_iff :
    {A B : Type 0} (R : A → B → Type 0) (es : List A) (gs : List B) (m : RxMessage)
    (ms : List RxMessage)
    → (length gs ≡ length es → (ms ≡ []) ↔ Pairwise R es gs)
    → (unless (length gs == length es) m ++ ms ≡ []) ↔ Pairwise R es gs
all_iff R es gs m ms k = (
  λ h. let (x, y) = (append_nil_iff _ ms).0 h in (k ((==_iff _ _).0 ((unless_nil _ m).0 x))).0 y,
  λ h.
      let n = Pairwise-length R es gs h in
      (append_nil_iff _ ms).1 ((unless_nil _ m).1 ((==_iff _ _).1 n), (k n).1 h),
)

no_messages_iff : (ms : List RxMessage) → (no_messages ms ≡ true) ↔ (ms ≡ [])
no_messages_iff [] = (λ h. refl, λ h. refl)
no_messages_iff (m ∷ ms) = (λ h. cc, λ h. cc)

-- The check passes exactly if no earlier check left an error, every frame came with the expected
-- payload and terror and with tsof, every statistic matches but for the overflow flag, and there
-- are as many of each as expected.
pub rx_check_iff :
    (sb : RxScoreboard) (got_axis : List GotFrame) (got_stats : List Stat)
    → ((rx_check sb got_axis got_stats).1 ≡ true) ↔ (
        (sb.errors ≡ [])
        × (Pairwise SameFrame sb.exp_axis got_axis × Pairwise SameStat sb.exp_stats got_stats))
unfolding rx_check check_axis check_stats
rx_check_iff sb got_axis got_stats =
    let n = no_messages_iff (rx_check sb got_axis got_stats).0.errors in
    let a =
      all_iff SameFrame sb.exp_axis got_axis (axis_count (length sb.exp_axis) (length got_axis)) _
        (axis_iff 0 sb.exp_axis got_axis) in
    let s =
      all_iff SameStat sb.exp_stats got_stats (stat_count (length sb.exp_stats) (length got_stats))
        _ (stats_iff 0 sb.exp_stats got_stats) in
    let o = append_nil_iff (check_axis sb got_axis).errors _ in
    let q = append_nil_iff sb.errors _ in
    (
      λ h. let (l, r) = o.0 (n.0 h) in let (x, y) = q.0 l in (x, (a.0 y, s.0 r)),
      λ h. n.1 (o.1 (q.1 (h.0, a.1 h.1.0), s.1 h.1.1)),
    )
