-- ===== src/Bench/Bus.antt =====
-- An AXI-Stream input as the drivers see it: what they hold on the signals, and the rising edges that
-- pass. The samples of tready, one for each rising edge, are a parameter: they are the design's.
use emac_zero.Base.{
  Bool, List, Option, [], false, if◌then◌else◌, none, some, suc, true, zero, ℕ, ◌&&◌, ◌++◌, ◌∷◌,
  ◌≡◌, ◌≤◌,
}

-- The signals tvalid, tdata and tlast.
pub record AxisBeat : Type 0 where
  pub tvalid : Bool
  pub tdata : ℕ
  pub tlast : Bool

-- The signals, the number of the rising edges passed, and what each edge saw: the signals and tready.
pub record Bus : Type 0 where
  pub now : AxisBeat
  pub time : ℕ
  pub trace : List (AxisBeat × Bool)

abbrev pub beat : ℕ → Bool → AxisBeat
beat b last = record { tvalid = true; tdata = b; tlast = last }

-- tvalid and tlast are set low; tdata stays.
abbrev pub low : Bus → Bus
low bus = record bus { now = record bus.now { tvalid = false; tlast = false } }

abbrev pub drive : AxisBeat → Bus → Bus
drive x bus = record bus { now = x }

-- The transfers: tvalid and tready are high at the same edge.
unfoldable pub taken : List (AxisBeat × Bool) → List (ℕ × Bool)
taken [] = []
taken ((x, ready) ∷ edges) =
    if x.tvalid && ready then (x.tdata, x.tlast) ∷ taken edges else taken edges

infixl 5 ◌>>=◌
abbrev pub ◌>>=◌ {ℓ κ} : {A : Type ℓ} {B : Type κ} → Option A → (A → Option B) → Option B
none >>= f = none
some a >>= f = f a

module _ (ready : ℕ → Bool) where
  -- await RisingEdge(clk)
  abbrev pub edge : Bus → Bus
  edge bus = record {
    now = bus.now;
    time = suc bus.time;
    trace = bus.trace ++ (bus.now, ready bus.time) ∷ [];
  }

  unfoldable pub edges : ℕ → Bus → Bus
  edges zero bus = bus
  edges (suc n) bus = edges n (edge bus)

  -- while True: … if ready: break; none where the fuel ends first.
  unfoldable pub accept_beat : ℕ → Bus → Option Bus
  accept_beat zero bus = none
  accept_beat (suc fuel) bus =
      let rest = accept_beat fuel (edge bus) in if ready bus.time then some (edge bus) else rest

  -- From edge `t` on, tready is high at the edge that comes after `d` others.
  pub data Waits : ℕ → ℕ → Type 0 where
    at_once : {t : ℕ} → ready t ≡ true → Waits t zero
    later : {t d : ℕ} → ready t ≡ false → Waits (suc t) d → Waits t (suc d)

  -- tready is high at one edge at least of any `n` that follow one another.
  abbrev pub IsLive : ℕ → Type 0
  IsLive n = (t : ℕ) → (d : ℕ) × (suc d ≤ n) × Waits t d
