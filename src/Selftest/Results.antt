-- ===== src/Selftest/Results.antt =====
-- The status of the self-test, and the checks on a run of traffic.
use emac_zero.Base.{Bool, List, [], if◌then◌else◌, ltb, not, ℕ, ◌&&◌, ◌+◌, ◌==◌, ◌∷◌}
use emac_zero.Base.Bits.{shr}
use emac_zero.Base.Py.{Result, err, ok, system_exit}
use emac_zero.Counters.{bit_field}

-- FIELDS
pub record RunStatus : Type 0 where
  pub tx_frames : ℕ
  pub rx_ok : ℕ
  pub rx_ok_big : ℕ
  pub rx_bad : ℕ
  pub rx_terror : ℕ
  pub seq_gap : ℕ
  pub max_ok_len : ℕ
  pub first_bad_len : ℕ
  pub first_bad_seq : ℕ
  pub init_done : ℕ
  pub run : ℕ
  pub mmcm_locked : ℕ
  pub idelay_rdy : ℕ
  pub marker : ℕ
  pub speed : ℕ
  pub tap : ℕ
  pub pause_rx_en : ℕ
  pub max_gap : ℕ
  pub pause_ok : ℕ
  pub pause_bad : ℕ

-- `status`: the self-test's part starts at bit 64 of the EIO input.
unfoldable pub decode_run : ℕ → RunStatus
decode_run raw =
    let st = shr raw 64 in
    record {
      tx_frames = bit_field st 0 32;
      rx_ok = bit_field st 32 32;
      rx_ok_big = bit_field st 64 32;
      rx_bad = bit_field st 96 32;
      rx_terror = bit_field st 128 32;
      seq_gap = bit_field st 160 32;
      max_ok_len = bit_field st 192 16;
      first_bad_len = bit_field st 208 16;
      first_bad_seq = bit_field st 224 16;
      init_done = bit_field st 240 1;
      run = bit_field st 241 1;
      mmcm_locked = bit_field st 242 1;
      idelay_rdy = bit_field st 243 1;
      marker = bit_field st 244 12;
      speed = bit_field st 256 2;
      tap = bit_field st 258 5;
      pause_rx_en = bit_field st 263 1;
      max_gap = bit_field st 264 32;
      pause_ok = bit_field st 296 16;
      pause_bad = bit_field st 312 16;
    }

-- SPEEDS
pub data Speed : Type 0 where
  gigabit fast slow : Speed

unfoldable pub speed_code : Speed → ℕ
speed_code gigabit = 0
speed_code fast = 1
speed_code slow = 2

unfoldable pub clean : RunStatus → Bool
clean s =
    ltb 0 s.tx_frames
    && (s.rx_ok == s.tx_frames)
    && (s.rx_bad == 0)
    && (s.rx_terror == 0)
    && (s.seq_gap == 0)

-- The checks of `main` on a run at one speed.
unfoldable pub speed_checks : RunStatus → List Bool
speed_checks s =
    ltb 0 s.tx_frames
    ∷ (s.rx_ok == s.tx_frames)
    ∷ ltb 0 s.rx_ok_big
    ∷ (s.max_ok_len == 9014)
    ∷ (s.rx_bad == 0)
    ∷ (s.rx_terror == 0)
    ∷ (s.seq_gap == 0)
    ∷ []

-- fails += not ok
unfoldable pub count_fails : List Bool → ℕ
count_fails [] = 0
count_fails (ok_now ∷ checks) = (if ok_now then 0 else 1) + count_fails checks

-- The loops of `set_speed` and `set_pause_rx`: the polls, each with the time since the write in
-- milliseconds, until the status is as wanted or 2 s are over.
unfoldable pub poll : (RunStatus → Bool) → List (ℕ × RunStatus) → Result (Unit {0})
poll wanted [] = err system_exit
poll wanted ((t, s) ∷ polls) =
    let rest = poll wanted polls in
    if not (ltb t 2000) then err system_exit else if wanted s then ok tt else rest

unfoldable pub speed_set : Speed → RunStatus → Bool
speed_set speed s = (s.speed == speed_code speed) && not (s.init_done == 0)

unfoldable pub pause_rx_set : ℕ → RunStatus → Bool
pause_rx_set rx_en s = (s.pause_rx_en == rx_en) && not (s.init_done == 0)

-- The tests of `main` before it starts.
unfoldable pub ready : RunStatus → Result (Unit {0})
ready s =
    if not (s.marker == 0xB0C)
    then err system_exit
    else if not (s.init_done == 0) && not (s.mmcm_locked == 0) && not (s.idelay_rdy == 0)
    then ok tt
    else err system_exit
