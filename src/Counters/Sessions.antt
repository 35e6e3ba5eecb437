-- ===== src/Counters/Sessions.antt =====
-- `eio_session`, `mac_session` and `main`: what is written to the board, and when it is refused.
use emac_zero.Base.{
  Bool, List, Option, [], false, if◌then◌else◌, none, not, some, true, ℕ, ◌%◌, ◌&&◌, ◌/◌, ◌==◌, ◌∷◌,
}
use emac_zero.Base.Py.{Result, err, ok, runtime_error, wrong_build, ◌>>=◌, ◌>>◌}
use emac_zero.Counters.{Fields, read_eio, retry}

-- What the calls of one EIO session give, each a value or what it raises: the controller, its
-- connection and its widths, the reads before and after a clear, what is read back after each write,
-- and the close.
pub record EioSession : Type 0 where
  pub controller : Result (Unit {0})
  pub connect : Result (Unit {0})
  pub widths : ℕ × ℕ
  pub reads : ℕ → Result ℕ
  pub reads_after : ℕ → Result ℕ
  pub read_back : ℕ → Result ℕ
  pub close : Result (Unit {0})

-- `eio_write`, as write number `k`; `read_back` stands for both of its calls.
unfoldable pub eio_write : EioSession → ℕ → ℕ → Result (Unit {0})
eio_write s k value = s.read_back k >>= λ got. if got == value then ok tt else err runtime_error

-- The clear of `eio_session`: its outcome, and the words written, the last first.
unfoldable pub clear_counters : EioSession → Result Fields × List ℕ
clear_counters s = elim (eio_write s 0 1) [
  | err e ↦ (err e, 1 ∷ [])
  | ok u ↦ ((do eio_write s 1 0; read_eio s.reads_after), 0 ∷ 1 ∷ [])
]

unfoldable pub right_build : Fields → Bool
right_build f = (f.marker == 0x107) && (f.layout == 1)

unfoldable pub use_fields : EioSession → Bool → Result Fields → Result Fields × List ℕ
use_fields s clear (err e) = (err e, [])
use_fields s clear (ok f) =
    if not (right_build f)
    then (err wrong_build, [])
    else if clear
    then clear_counters s
    else (ok f, [])

-- finally: …close(). What the close raises takes the place of the outcome.
unfoldable pub after_close : Result (Unit {0}) → Result Fields × List ℕ → Result Fields × List ℕ
after_close (ok u) out = out
after_close (err e) (outcome, words) = (err e, words)

-- The body of the `try` of `eio_session`.
unfoldable pub use_session : EioSession → Bool → Result (Unit {0}) → Result Fields × List ℕ
use_session s clear (err e) = (err e, [])
use_session s clear (ok u) =
    if not ((s.widths.0 == 256) && (s.widths.1 == 8))
    then (err wrong_build, [])
    else use_fields s clear (read_eio s.reads)

-- `eio_session`: its outcome, and the words that it hands to write_outputs.
unfoldable pub eio_session : EioSession → Bool → Result Fields × List ℕ
eio_session s clear = elim s.controller [
  | err e ↦ (err e, [])
  | ok u ↦ after_close s.close (use_session s clear s.connect)
]

-- MAC_REGS, by address
abbrev pub mac_regs : List ℕ
mac_regs = 0x28 ∷ 0x2C ∷ 0x30 ∷ 0x34 ∷ 0x38 ∷ 0x4C ∷ 0x50 ∷ 0x54 ∷ 0x8C ∷ 0x90 ∷ []

abbrev pub pause_ctrl : ℕ
pause_ctrl = 0x84

-- What the calls of one AXI session give, each a value or what it raises: the controller, its
-- connection, the response to each write, the reads by address, and the close.
pub record AxiSession : Type 0 where
  pub controller : Result (Unit {0})
  pub connect : Result (Unit {0})
  pub response : ℕ → ℕ → Result ℕ
  pub value : ℕ → Result ℕ
  pub close : Result (Unit {0})

-- `write` of `mac_session`
unfoldable pub axi_write : AxiSession → ℕ → ℕ → Result (Unit {0})
axi_write s addr word =
    s.response addr word >>= λ resp. if resp == 0 then ok tt else err runtime_error

unfoldable pub write_pause : AxiSession → Option Bool → Result (Unit {0})
write_pause s none = ok tt
write_pause s (some on) = axi_write s pause_ctrl (if on then 2 else 0)

unfoldable pub clear_regs : AxiSession → List ℕ → Result (Unit {0})
clear_regs s [] = ok tt
clear_regs s (addr ∷ addrs) = axi_write s addr 0 >> clear_regs s addrs

unfoldable pub read_regs : AxiSession → List ℕ → Result (List ℕ)
read_regs s [] = ok []
read_regs s (addr ∷ addrs) = do v ← s.value addr; vs ← read_regs s addrs; ok (v ∷ vs)

-- bool(regs["pause_ctrl"] & 2) != pause
unfoldable pub check_pause : Option Bool → ℕ → Result (Unit {0})
check_pause none v = ok tt
check_pause (some true) v = if v / 2 % 2 == 1 then ok tt else err runtime_error
check_pause (some false) v = if v / 2 % 2 == 1 then err runtime_error else ok tt

-- The body of the `try` of `mac_session`.
unfoldable pub use_regs : AxiSession → Bool → Option Bool → Result (List ℕ × ℕ)
use_regs s clear pause = do
  s.connect
  write_pause s pause
  if clear then clear_regs s mac_regs else ok tt
  regs ← read_regs s mac_regs
  ctrl ← s.value pause_ctrl
  check_pause pause ctrl
  ok (regs, ctrl)

-- `mac_session`: the registers of MAC_REGS, and that of PAUSE_CTRL. It is closed whatever it ends with.
unfoldable pub mac_session : AxiSession → Bool → Option Bool → Result (List ℕ × ℕ)
mac_session s clear pause = do
  s.controller
  elim s.close [ err e ↦ err e | ok u ↦ use_regs s clear pause ]

-- `main`: what is reported, from the outcomes of the sessions' attempts.
unfoldable pub main_counters :
    (ℕ → EioSession) → (ℕ → AxiSession) → Bool → Option Bool → Result (Fields × (List ℕ × ℕ))
main_counters eio axi clear pause = do
  pcs ← retry (λ k. (eio_session (eio k) clear).0)
  mac ← retry (λ k. mac_session (axi k) clear pause)
  ok (pcs, mac)
