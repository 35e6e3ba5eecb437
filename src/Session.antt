-- ===== src/Session.antt =====
-- A script that drives a board through a JTAG session: its actions, over the state that they
-- change. The fcapz host library and the clock are parameters: what each call of them gives.
use emac_zero.Base.{Bool, List, Option, false, length, none, some, true, ℕ, ◌+◌, ◌∷◌}
use emac_zero.Base.Py.{PyError, Result, err, ok}

-- What the outside gives: the results of the calls in their order, the time that passes with each
-- call (in milliseconds), and the width of the EIO input.
pub record Host : Type 0 where
  pub connect : Result (Unit {0})
  pub inputs : ℕ → Result ℕ
  pub accepts : ℕ → Result (Unit {0})
  pub lag : ℕ → ℕ
  pub in_w : ℕ

pub data Verdict : Type 0 where
  pass fail info skip : Verdict

-- The attributes of the objects and the calls so far; `written` has the last word first.
pub record World (T : Type 0) : Type 0 where
  pub ctrl : ℕ
  pub written : List ℕ
  pub reads : ℕ
  pub calls : ℕ
  pub now : ℕ
  pub closed : Bool
  pub rows : List (Verdict × T)

-- The state comes back after a raise too: what was written stays written.
abbrev pub Action : Type 0 → Type 0 → Type 0
Action T A = World T → Result A × World T

module _ {T A : Type 0} where
  abbrev pub pure : A → Action T A
  pure a w = (ok a, w)

  abbrev pub raise : PyError → Action T A
  raise e w = (err e, w)

infixl 5 ◌>>=◌ ◌>>◌
unfoldable pub ◌>>=◌ : {T A B : Type 0} → Action T A → (A → Action T B) → Action T B
◌>>=◌ m f w = let (r, w') = m w in elim r [ ok a ↦ f a w' | err e ↦ raise e w' ]

abbrev pub ◌>>◌ : {T A B : Type 0} → Action T A → Action T B → Action T B
m >> k = m >>= λ _. k

module _ {T : Type 0} (h : Host) where
  -- A call that takes its time.
  abbrev pub passes : World T → ℕ → World T
  passes w ms = record w { now = w.now + ms + h.lag w.calls; calls = w.calls + 1 }

  -- time.monotonic()
  abbrev pub monotonic : Action T ℕ
  monotonic w = (ok w.now, passes w 0)

  -- time.sleep(ms / 1000)
  abbrev pub sleep : ℕ → Action T (Unit {0})
  sleep ms w = (ok tt, passes w ms)

  -- eio.read_inputs()
  abbrev pub read_inputs : Action T ℕ
  read_inputs w = (h.inputs w.reads, passes (record w { reads = w.reads + 1 }) 0)

  -- eio.write_outputs(value)
  abbrev pub write_outputs : ℕ → Action T (Unit {0})
  write_outputs value w =
      (h.accepts (length w.written), passes (record w { written = value ∷ w.written }) 0)

-- try: body finally: cleanup
abbrev pub try_finally : {T A : Type 0} → Action T A → Action T (Unit {0}) → Action T A
try_finally body cleanup w =
    let (r, w1) = body w in
    let (c, w2) = cleanup w1 in elim c [ ok u ↦ (r, w2) | err e ↦ (err e, w2) ]

-- t is not None
abbrev pub is_some : {A : Type 0} → Option A → Bool
is_some none = false
is_some (some a) = true
