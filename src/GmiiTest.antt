-- ===== src/GmiiTest.antt =====
-- fpga/arty_a7/scripts/gmii_lb_selftest.py. The fcapz command line and the clock are parameters: the
-- outcome of each run of a command, and the time that passes with it.
pub mod Refusal
pub mod Course
pub mod Steps
pub mod Ending
pub mod Answer
use emac_zero.Base.{
  Bool, List, [], if◌then◌else◌, ltb, min, not, none, some, suc, zero, ℕ, ◌&&◌, ◌+◌, ◌-◌, ◌==◌, ◌∷◌,
  ◌%◌, ◌^◌,
}
use emac_zero.Base.Bits.{shr}
use emac_zero.Base.Py.{Result, err, index_error, ok, runtime_error, system_exit, value_error}
use emac_zero.Base.Text.{Line}
use emac_zero.Counters.{bit_field}
use emac_zero.Selftest.Results.{count_fails}
use emac_zero.SerialMonitor.Hex.{parse_hex}

-- FIELDS
pub record GmiiStatus : Type 0 where
  pub tx_frames : ℕ
  pub rx_ok : ℕ
  pub rx_ok_big : ℕ
  pub rx_bad : ℕ
  pub rx_terror : ℕ
  pub seq_gap : ℕ
  pub max_ok_len : ℕ
  pub first_bad_len : ℕ
  pub first_bad_seq : ℕ
  pub init_done : ℕ
  pub run : ℕ
  pub mmcm_locked : ℕ
  pub marker : ℕ

unfoldable pub decode_gmii : ℕ → GmiiStatus
decode_gmii raw =
    let st = shr raw 64 in
    record {
      tx_frames = bit_field st 0 32;
      rx_ok = bit_field st 32 32;
      rx_ok_big = bit_field st 64 32;
      rx_bad = bit_field st 96 32;
      rx_terror = bit_field st 128 32;
      seq_gap = bit_field st 160 32;
      max_ok_len = bit_field st 192 16;
      first_bad_len = bit_field st 208 16;
      first_bad_seq = bit_field st 224 16;
      init_done = bit_field st 240 1;
      run = bit_field st 241 1;
      mmcm_locked = bit_field st 242 1;
      marker = bit_field st 244 12;
    }

pub data Command : Type 0 where
  eio_read : Command
  eio_write : ℕ → Command

-- A run of the command that ends with 0, with the lines of its output, or with another code.
pub data Outcome : Type 0 where
  printed : List Line → Outcome
  failed : Outcome

pub record Cli : Type 0 where
  pub outcome : ℕ → Command → Outcome
  pub lag : ℕ → ℕ

-- The runs so far, with the last one first; the words that a run with code 0 wrote; the clock, in
-- milliseconds.
pub record CliWorld : Type 0 where
  pub log : List Command
  pub written : List ℕ
  pub runs : ℕ
  pub now : ℕ

abbrev pub CliAction : Type 0 → Type 0
CliAction A = CliWorld → Result A × CliWorld

unfoldable pub goes_on_with :
    {A B : Type 0} → (A → CliAction B) → Result A × CliWorld → Result B × CliWorld
goes_on_with f (ok a, w) = f a w
goes_on_with f (err e, w) = (err e, w)

infixl 5 ◌>>=◌ ◌>>◌
abbrev pub ◌>>=◌ : {A B : Type 0} → CliAction A → (A → CliAction B) → CliAction B
◌>>=◌ m f w = goes_on_with f (m w)

abbrev pub ◌>>◌ : {A B : Type 0} → CliAction A → CliAction B → CliAction B
m >> k = m >>= λ _. k

abbrev pub give : {A : Type 0} → Result A → CliAction A
give r w = (r, w)

abbrev pub sleep : ℕ → CliAction (Unit {0})
sleep ms w = (ok tt, record w { now = w.now + ms })

abbrev pub clock : CliAction ℕ
clock w = (ok w.now, w)

-- The word that a command writes, before those of earlier ones.
unfoldable pub noted : Command → List ℕ → List ℕ
noted eio_read written = written
noted (eio_write v) written = v ∷ written

-- int(out.splitlines()[-1], 16); a number below 0 has the bits of its remainder by 2 ** 320, and no
-- others are read.
unfoldable pub last_hex : List Line → Result ℕ
last_hex [] = err index_error
last_hex (l ∷ []) = elim (parse_hex l) [
  | none ↦ err value_error
  | some (minus, n) ↦ ok (if minus then (2 ^ 320 - n % 2 ^ 320) % 2 ^ 320 else n)
]
last_hex (l ∷ k ∷ lines) = last_hex (k ∷ lines)

-- The tests of `main` before it starts.
unfoldable pub gmii_ready : GmiiStatus → Bool
gmii_ready s = (s.marker == 0xB0A) && not (s.init_done == 0) && not (s.mmcm_locked == 0)

-- The checks on the status after the stop.
unfoldable pub gmii_checks : GmiiStatus → List Bool
gmii_checks s =
    ltb 0 s.tx_frames
    ∷ (s.rx_ok == s.tx_frames)
    ∷ ltb 0 s.rx_ok_big
    ∷ (s.max_ok_len == 9014)
    ∷ (s.rx_bad == 0)
    ∷ (s.rx_terror == 0)
    ∷ (s.seq_gap == 0)
    ∷ []

module _ (h : Cli) where
  -- One run of the command, after it.
  abbrev pub after_run : Command → CliWorld → CliWorld
  after_run c w = record w { log = c ∷ w.log; runs = w.runs + 1; now = w.now + h.lag w.runs }

  -- What a run's outcome leads to: `again` is the rest of the tries.
  unfoldable pub by_outcome :
      Command → CliWorld → Result (List Line) × CliWorld → Outcome → Result (List Line) × CliWorld
  by_outcome c w again (printed lines) =
      (ok lines, record (after_run c w) { written = noted c w.written })
  by_outcome c w again failed = again

  -- `fcapz`: the loop over the tries that are left.
  unfoldable pub fcapz_loop : ℕ → Command → CliAction (List Line)
  fcapz_loop zero c w = (err system_exit, w)
  fcapz_loop (suc tries) c w =
      let again =
        fcapz_loop tries c (record (after_run c w) { now = (after_run c w).now + 2000 }) in
      by_outcome c w again (h.outcome w.runs c)

  unfoldable pub fcapz : Command → CliAction (List Line)
  fcapz = fcapz_loop 5

  unfoldable pub read_gmii : CliAction GmiiStatus
  read_gmii = do lines ← fcapz eio_read; raw ← give (last_hex lines); give (ok (decode_gmii raw))

  -- while time.monotonic() - t0 < seconds: …; a RuntimeError stands for the end of the fuel.
  unfoldable pub progress : ℕ → ℕ → ℕ → ℕ → CliAction (Unit {0})
  progress zero seconds interval t0 w = (err runtime_error, w)
  progress (suc fuel) seconds interval t0 w =
      let waited = record w { now = w.now + min interval (seconds - (w.now - t0)) } in
      let rest = (read_gmii >>= λ s. progress fuel seconds interval t0) waited in
      if ltb (w.now - t0) seconds then rest else (ok tt, w)

  -- `main` from the traffic on, with --seconds and --interval in milliseconds.
  unfoldable pub run_gmii : ℕ → ℕ → CliAction ℕ
  run_gmii seconds interval = do
    fcapz (eio_write 2)
    sleep 200
    fcapz (eio_write 1)
    t0 ← clock
    progress (seconds + 1) seconds interval t0
    fcapz (eio_write 0)
    sleep 1000
    s ← read_gmii
    give (ok (if count_fails (gmii_checks s) == 0 then 0 else 1))

  unfoldable pub main_gmii : ℕ → ℕ → CliAction ℕ
  main_gmii seconds interval = do
    s ← read_gmii
    if gmii_ready s then run_gmii seconds interval else give (err system_exit)
