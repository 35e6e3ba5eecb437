-- ===== src/Bench/Transfer.antt =====
-- What a wait for tready transfers.
use mathlib.Core.List.{append_assoc, append-nil}
use emac_zero.Base.{
  Bool, List, Option, [], arith, false, refl, some, suc, true, zero, ℕ, ◌++◌, ◌∙◌, ◌∷◌, ◌≡◌, ◌≤◌,
  ap, if◌then◌else◌, ◌&&◌,
}
use emac_zero.Bench.Bus.{
  AxisBeat, Bus, IsLive, Waits, accept_beat, at_once, beat, edge, edges, later, taken, ◌>>=◌,
}

if-append {ℓ} :
    {A : Type ℓ} (b : Bool) (x : A) (xs ys : List A) {zs : List A}
    → zs ≡ xs ++ ys
    → (if b then x ∷ zs else zs) ≡ (if b then x ∷ xs else xs) ++ ys
if-append true x xs ys h = ap (◌∷◌ x) h
if-append false x xs ys h = h

pub taken-append : (xs ys : List (AxisBeat × Bool)) → taken (xs ++ ys) ≡ taken xs ++ taken ys
unfolding taken
taken-append [] ys = refl
taken-append ((x, r) ∷ xs) ys =
    if-append (x.tvalid && r) (x.tdata, x.tlast) (taken xs) (taken ys) (taken-append xs ys)

module _ (ready : ℕ → Bool) where
  -- The bus that a driver leaves, and the transfers that it adds to those before.
  abbrev pub Adds : Option Bus → Bus → List (ℕ × Bool) → Type 0
  Adds result bus beats =
      (bus' : Bus) × (result ≡ some bus') × (taken bus'.trace ≡ taken bus.trace ++ beats)

  pub taken-low_edge :
      (bus : Bus) → bus.now.tvalid ≡ false → taken (edge ready bus).trace ≡ taken bus.trace
  unfolding taken
  taken-low_edge bus v = taken-append bus.trace _ ∙ rw v (append-nil (taken bus.trace))

  pub taken-low_edges :
      (n : ℕ) (bus : Bus)
      → bus.now.tvalid ≡ false
      → taken (edges ready n bus).trace ≡ taken bus.trace
  unfolding edges
  taken-low_edges zero bus v = refl
  taken-low_edges (suc n) bus v = taken-low_edges n (edge ready bus) v ∙ taken-low_edge bus v

  accept_beat-later :
      (fuel : ℕ) (bus : Bus)
      → ready bus.time ≡ false
      → accept_beat ready (suc fuel) bus ≡ accept_beat ready fuel (edge ready bus)
  unfolding accept_beat
  accept_beat-later fuel bus r = rw r refl

  accept_beat-Waits :
      (fuel : ℕ) (bus : Bus) (b : ℕ) (last : Bool) {t d : ℕ}
      → bus.now ≡ beat b last
      → bus.time ≡ t
      → Waits ready t d
      → suc d ≤ fuel
      → Adds (accept_beat ready fuel bus) bus ((b, last) ∷ [])
  unfolding accept_beat taken
  accept_beat-Waits zero bus b last e g w h = absurd (omega arith)
  accept_beat-Waits (suc fuel) bus b last e g (at_once {t = t} y) h =
      let r : ready bus.time ≡ true = rw g y in
      (edge ready bus, rw r refl, taken-append bus.trace _ ∙ rw (e, r) refl)
  accept_beat-Waits (suc fuel) bus b last e g (later {t = t} {d = d} n w) h =
      let r : ready bus.time ≡ false = rw g n in
      let (bus', p, q) =
        accept_beat-Waits fuel (edge ready bus) b last e (ap suc g) w (omega arith) in
      (
        bus',
        accept_beat-later fuel bus r ∙ p,
        q ∙ ap (λ x. x ++ (b, last) ∷ []) (taken-append bus.trace _ ∙ rw (e, r) (append-nil _)),
      )

  -- Held on the signals, a beat is transferred once, within any bound on the design's waits.
  pub accept_beat-Adds :
      (fuel : ℕ) (bus : Bus) (b : ℕ) (last : Bool)
      → IsLive ready fuel
      → bus.now ≡ beat b last
      → Adds (accept_beat ready fuel bus) bus ((b, last) ∷ [])
  accept_beat-Adds fuel bus b last live e =
      let (d, h, w) = live bus.time in accept_beat-Waits fuel bus b last e refl w h

  pub taken-edge :
      (bus : Bus) (b : ℕ) (last : Bool)
      → bus.now ≡ beat b last
      → ready bus.time ≡ true
      → taken (edge ready bus).trace ≡ taken bus.trace ++ (b, last) ∷ []
  unfolding taken
  taken-edge bus b last e r = taken-append bus.trace _ ∙ rw (e, r) refl

  pub taken-held_edge :
      (bus : Bus) → ready bus.time ≡ false → taken (edge ready bus).trace ≡ taken bus.trace
  unfolding taken
  taken-held_edge bus r =
      taken-append bus.trace _ ∙ rw (r, and_false bus.now.tvalid) (append-nil (taken bus.trace))
    where
      and_false : (b : Bool) → (b && false) ≡ false
      and_false true = refl
      and_false false = refl

  -- A driver goes on from the bus that another leaves.
  pub >>=-Adds :
      (first : Option Bus) (next : Bus → Option Bus) (bus : Bus) (xs ys : List (ℕ × Bool))
      → Adds first bus xs
      → ((bus' : Bus) → Adds (next bus') bus' ys)
      → Adds (first >>= next) bus (xs ++ ys)
  >>=-Adds first next bus xs ys (bus', p, q) h =
      let (end, r, s) = h bus' in
      (end, rw p r, s ∙ ap (λ t. t ++ ys) q ∙ append_assoc (taken bus.trace) xs ys)
