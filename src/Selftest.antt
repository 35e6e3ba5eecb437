-- ===== src/Selftest.antt =====
-- fpga/arty_a7/scripts/rgmii_lb_selftest.py: the words that `SelfTest` writes to the EIO, the verdict
-- on a run and the choice of the RX delay tap. The fcapz host library is not part of the
-- repository; a write is the word that it is given.
pub mod Words
pub mod Results
pub mod Pause
pub mod Taps
pub mod Stalls
pub mod Runs
use mathlib.Core.Option
use emac_zero.Base.{List, Option, [], bit_or, get_or, none, some, ℕ, ◌∷◌}
use emac_zero.Base.Bits.{shl}
use emac_zero.Saf.{run}

-- The attributes of `SelfTest` that `write` packs.
pub record SelfTest : Type 0 where
  pub speed : ℕ
  pub tap : ℕ
  pub quanta : ℕ
  pub rx_en : ℕ
  pub running : ℕ

-- The word of `write`; `|` binds weaker than `<<`.
unfoldable pub eio_word : SelfTest → ℕ → ℕ → ℕ → ℕ
eio_word t clear load send =
    let w1 = bit_or t.running (shl clear 1) in
    let w2 = bit_or w1 (shl t.speed 2) in
    let w3 = bit_or w2 (shl t.tap 4) in
    let w4 = bit_or w3 (shl load 9) in
    let w5 = bit_or w4 (shl t.quanta 10) in
    let w6 = bit_or w5 (shl t.rx_en 26) in bit_or w6 (shl send 27)

-- `write(run, clear, load, send)`: the object afterwards, and the word.
unfoldable pub write : SelfTest → Option ℕ → ℕ → ℕ → ℕ → SelfTest × ℕ
write t run clear load send =
    let t' = record t { running = Option.get_or run t.running } in (t', eio_word t' clear load send)

-- The writes of `set_tap`, before it reads the tap back.
unfoldable pub set_tap : SelfTest → ℕ → SelfTest × List ℕ
unfolding write
set_tap t tap =
    let (t1, a) = write (record t { tap = tap }) (some 0) 0 0 0 in
    let (t2, b) = write t1 none 0 1 0 in let (t3, c) = write t2 none 0 0 0 in (t3, a ∷ b ∷ c ∷ [])

-- `send_pause`
unfoldable pub send_pause : SelfTest → ℕ → SelfTest × List ℕ
unfolding write
send_pause t quanta =
    let (t1, a) = write (record t { quanta = quanta }) none 0 0 0 in
    let (t2, b) = write t1 none 0 0 1 in let (t3, c) = write t2 none 0 0 0 in (t3, a ∷ b ∷ c ∷ [])

-- `start`
unfoldable pub start_run : SelfTest → SelfTest × List ℕ
unfolding write
start_run t =
    let (t1, a) = write t (some 0) 1 0 0 in
    let (t2, b) = write t1 none 0 0 0 in
    let (t3, c) = write t2 (some 1) 0 0 0 in (t3, a ∷ b ∷ c ∷ [])
