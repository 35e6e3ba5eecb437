-- ===== src/Selftest/Words.antt =====
-- The fields of the words that `SelfTest` writes.
use emac_zero.Base.{[], arith, refl, ℕ, ◌%◌, ◌*◌, ◌+◌, ◌/◌, ◌<◌, ◌^◌, ◌∷◌, ◌≡◌}
use emac_zero.Base.Bits.{bit_or_above, shl}
use emac_zero.Selftest.{SelfTest, eio_word, send_pause, set_tap, start_run}

-- The attributes fit their fields.
abbrev pub Fits : SelfTest → Type 0
Fits t = (t.running < 2) × (t.speed < 4) × (t.tap < 32) × (t.quanta < 2 ^ 16) × (t.rx_en < 2)

-- What the hardware reads from a word: [0] run, [1] clear, [3:2] speed, [8:4] tap, [9] tap load,
-- [25:10] PAUSE quanta, [26] PAUSE rx_en and [27] PAUSE send.
pub record Reads (w : ℕ) (t : SelfTest) (clear load send : ℕ) : Type 0 where
  pub bit0 : w % 2 ≡ t.running
  pub bit1 : w / 2 % 2 ≡ clear
  pub bits2 : w / 4 % 4 ≡ t.speed
  pub bits4 : w / 16 % 32 ≡ t.tap
  pub bit9 : w / 512 % 2 ≡ load
  pub bits10 : w / 1024 % 65536 ≡ t.quanta
  pub bit26 : w / 2 ^ 26 % 2 ≡ t.rx_en
  pub bit27 : w / 2 ^ 27 ≡ send

module _ (t : SelfTest) (fits : Fits t) (clear load send : ℕ) (c : clear < 2) (l : load < 2)
    (s : send < 2) where
  word_sum :
      eio_word t clear load send
      ≡ t.running
        + clear * 2
        + t.speed * 4
        + t.tap * 16
        + load * 512
        + t.quanta * 1024
        + t.rx_en * 2 ^ 26
        + send * 2 ^ 27
  unfolding eio_word
  word_sum =
      let e1 = bit_or_above 1 clear t.running (omega arith) in
      let e2 = bit_or_above 2 t.speed (t.running + shl clear 1) (omega arith) in
      let e3 = bit_or_above 4 t.tap (t.running + shl clear 1 + shl t.speed 2) (omega arith) in
      let e4 =
        bit_or_above 9 load (t.running + shl clear 1 + shl t.speed 2 + shl t.tap 4) (omega arith) in
      let e5 =
        bit_or_above 10 t.quanta
          (t.running + shl clear 1 + shl t.speed 2 + shl t.tap 4 + shl load 9) (omega arith) in
      let e6 =
        bit_or_above 26 t.rx_en
          (t.running + shl clear 1 + shl t.speed 2 + shl t.tap 4 + shl load 9 + shl t.quanta 10)
          (omega arith) in
      let e7 =
        bit_or_above 27 send
          (t.running
            + shl clear 1
            + shl t.speed 2
            + shl t.tap 4
            + shl load 9
            + shl t.quanta 10
            + shl t.rx_en 26)
          (omega arith) in
      rw (e1, e2, e3, e4, e5, e6, e7) (omega arith)

  -- For attributes and flags that fit their fields, each field of the EIO word holds its own
  -- attribute or flag, whatever the others are.
  pub eio_word-Reads : Reads (eio_word t clear load send) t clear load send
  eio_word-Reads = record {
    bit0 = omega (arith, word_sum);
    bit1 = omega (arith, word_sum);
    bits2 = omega (arith, word_sum);
    bits4 = omega (arith, word_sum);
    bit9 = omega (arith, word_sum);
    bits10 = omega (arith, word_sum);
    bit26 = omega (arith, word_sum);
    bit27 = omega (arith, word_sum);
  }

-- For attributes that fit their fields, `send_pause` writes three words that differ in the send bit
-- only, which rises once; all carry the new quanta and leave the run, the speed and the tap as they
-- are.
pub send_pause-Reads :
    (t : SelfTest) (quanta : ℕ)
    → Fits (record t { quanta = quanta })
    → let t' = record t { quanta = quanta } in
      (a : ℕ) × (b : ℕ) × (c : ℕ) × (send_pause t quanta ≡ (t', a ∷ b ∷ c ∷ []))
      × Reads a t' 0 0 0
      × Reads b t' 0 0 1
      × Reads c t' 0 0 0
unfolding send_pause
send_pause-Reads t quanta f =
    let t' : SelfTest = record t { quanta = quanta } in
    (
      eio_word t' 0 0 0,
      eio_word t' 0 0 1,
      eio_word t' 0 0 0,
      refl,
      eio_word-Reads t' f 0 0 0 (omega arith) (omega arith) (omega arith),
      eio_word-Reads t' f 0 0 1 (omega arith) (omega arith) (omega arith),
      eio_word-Reads t' f 0 0 0 (omega arith) (omega arith) (omega arith),
    )

-- For attributes that fit their fields, `set_tap` stops the traffic, and then raises the load bit
-- once with the new tap on the wires.
pub set_tap-Reads :
    (t : SelfTest) (tap : ℕ)
    → Fits (record t { tap = tap; running = 0 })
    → let t' = record t { tap = tap; running = 0 } in
      (a : ℕ) × (b : ℕ) × (c : ℕ) × (set_tap t tap ≡ (t', a ∷ b ∷ c ∷ []))
      × Reads a t' 0 0 0
      × Reads b t' 0 1 0
      × Reads c t' 0 0 0
unfolding set_tap
set_tap-Reads t tap f =
    let t' : SelfTest = record t { tap = tap; running = 0 } in
    (
      eio_word t' 0 0 0,
      eio_word t' 0 1 0,
      eio_word t' 0 0 0,
      refl,
      eio_word-Reads t' f 0 0 0 (omega arith) (omega arith) (omega arith),
      eio_word-Reads t' f 0 1 0 (omega arith) (omega arith) (omega arith),
      eio_word-Reads t' f 0 0 0 (omega arith) (omega arith) (omega arith),
    )

-- For attributes that fit their fields, `start` clears the counters with the traffic stopped, and
-- starts it only after the clear bit has gone down again.
pub start_run-Reads :
    (t : SelfTest)
    → Fits t
    → let stopped = record t { running = 0 } in
      let running = record t { running = 1 } in
      (a : ℕ) × (b : ℕ) × (c : ℕ) × (start_run t ≡ (running, a ∷ b ∷ c ∷ []))
      × Reads a stopped 1 0 0
      × Reads b stopped 0 0 0
      × Reads c running 0 0 0
unfolding start_run
start_run-Reads t f =
    let stopped : SelfTest = record t { running = 0 } in
    let running : SelfTest = record t { running = 1 } in
    let low : Fits stopped = omega (arith, f) in
    let high : Fits running = omega (arith, f) in
    (
      eio_word stopped 1 0 0,
      eio_word stopped 0 0 0,
      eio_word running 0 0 0,
      refl,
      eio_word-Reads stopped low 1 0 0 (omega arith) (omega arith) (omega arith),
      eio_word-Reads stopped low 0 0 0 (omega arith) (omega arith) (omega arith),
      eio_word-Reads running high 0 0 0 (omega arith) (omega arith) (omega arith),
    )
