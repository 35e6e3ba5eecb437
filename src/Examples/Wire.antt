-- ===== src/Examples/Wire.antt =====
-- The theorems on the frame models, scoreboards, drivers and monitors at concrete inputs.
use emac_zero.Base.{
  inl, inr, List, [], arith, false, if◌then◌else◌, length, map, none, refl, replicate, some, true,
  ℕ, ◌++◌, ◌+◌, ◌<◌, ◌↔◌, ◌∷◌, ◌≡◌,
}
use emac_zero.Base.Predicates.{All-replicate}
use emac_zero.Base.Py.{Bytes, from_bytes_little, ok}
use emac_zero.Cdc.{Cycle, drive_bytes, er_list, idle_cycle, rx_run, rx_send}
use emac_zero.Cdc.Receive.{Send, rx_between, rx_run-send_all, rx_send-merged, send_all}
use emac_zero.Gmii.{send_frame}
use emac_zero.Mii.{MiiMonitor, fcs_mismatch, run_samples}
use emac_zero.Mii.Wire.{mii_samples, monitor-send_frame, standard, waiting}
use emac_zero.Rx.{AxisFrame, GotFrame, Limits, RxFrame, RxScoreboard, Stat, rx_check, rx_expected}
use emac_zero.Rx.Policy.{AreLong, Reported, rx_expected-Reported}
use emac_zero.Rx.Frames.{IsWanted}
use emac_zero.Rx.Verdict.{Pairwise, SameFrame, SameStat, rx_check_iff}
use emac_zero.Saf.{Segment, flatten_segments, saf_expected}
use emac_zero.Saf.Refine.{saf_expected-refines}
use emac_zero.Saf.Spec.{wire_frames}
use emac_zero.Sink.{Turn, next_ready, sink_run}
use emac_zero.Sink.Capture.{
  Carries, accepts, any_error, bytes_of, carried, ready_for, sink_run-frame, waits,
}

-- A stand-in for the checksum of the library.
abbrev toy_crc : Bytes → ℕ
toy_crc payload = from_bytes_little payload

abbrev segments : List Segment
segments =
    record { bytes = 1 ∷ 2 ∷ 3 ∷ []; last = false }
    ∷ record { bytes = 4 ∷ 5 ∷ []; last = true }
    ∷ record { bytes = 6 ∷ []; last = true }
    ∷ []

saf_expected-refines_example :
    saf_expected segments 4 ≡ wire_frames 4 [] (flatten_segments segments)
saf_expected-refines_example = saf_expected-refines segments 4 (omega arith)

abbrev frame60 : Bytes
frame60 = replicate 60 7

abbrev quiet : MiiMonitor
quiet = record { payloads = []; fcs_errors = 0; framing_errors = [] }

monitor-send_frame_example :
    run_samples toy_crc
      (waiting quiet)
      (mii_samples (send_frame toy_crc (standard true false (some 9)) frame60))
    ≡ waiting (record {
      payloads = quiet.payloads ++ frame60 ∷ [];
      fcs_errors = quiet.fcs_errors + (if true then 1 else 0);
      framing_errors =
          quiet.framing_errors ++ (if true then fcs_mismatch (length frame60) ∷ [] else []);
    })
monitor-send_frame_example =
    monitor-send_frame toy_crc frame60 true false (some 9) quiet
      (All-replicate (λ (b : ℕ). b < 256) 60 7 (omega arith))

abbrev rx_frames : List RxFrame
rx_frames =
    record { payload = frame60; corrupt_fcs = true; align_err = false }
    ∷ record { payload = []; corrupt_fcs = false; align_err = false }
    ∷ []

abbrev limits : Limits
limits = record { jumbo_en = false; max_std = 1518; max_jumbo = 9018 }

-- The MAC does not take an empty frame: its address reads as 0.
rx_frames-AreLong : AreLong 7726764066567 false false rx_frames
rx_frames-AreLong = ((λ w. omega arith), ((λ w. unwanted w), tt))
  where
    differ : false ≡ true → ⊥
    differ x = cc

    unwanted : IsWanted 7726764066567 false false [] → 0 < 0
    unwanted (inl e) = absurd (differ e)
    unwanted (inr (inl e)) = absurd (differ e)
    unwanted (inr (inr (inl e))) = absurd (omega (arith, e))
    unwanted (inr (inr (inr e))) = absurd (omega (arith, e))

rx_expected-Reported_example :
    (axis : List AxisFrame) × (stats : List Stat) × (rx_expected rx_frames 7726764066567 false false
        limits
      ≡ ok (axis, stats))
    × Reported 7726764066567 false false limits rx_frames axis stats
rx_expected-Reported_example =
    rx_expected-Reported 7726764066567 false false limits rx_frames rx_frames-AreLong

abbrev rx_board : RxScoreboard
rx_board = record {
  exp_axis = record { payload = frame60; terror = false } ∷ [];
  exp_stats = [];
  errors = [];
}

abbrev got : List GotFrame
got = record { payload = frame60; terror = false; sof = true } ∷ []

rx_check_iff_example : ((rx_check rx_board got []).1 ≡ true) ↔ (
    (rx_board.errors ≡ [])
    × (Pairwise SameFrame rx_board.exp_axis got × Pairwise SameStat rx_board.exp_stats []))
rx_check_iff_example = rx_check_iff rx_board got []

abbrev sends : List Send
sends =
    record { bytes = 1 ∷ 2 ∷ []; gap = 1; er = none }
    ∷ record { bytes = 3 ∷ []; gap = 2; er = some (1 ∷ []) }
    ∷ []

rx_run-send_all_example :
    (cycles : List Cycle) × (send_all sends ≡ ok cycles)
    × (rx_run (rx_between [] [] 0) cycles
        ≡ rx_between
            ([] ++ map (λ s. s.bytes) sends)
            ([] ++ map (λ s. er_list s.er s.bytes) sends)
            (0 + length sends))
rx_run-send_all_example = rx_run-send_all sends [] [] 0 (
  (omega arith, omega arith, omega arith, refl),
  ((omega arith, omega arith, omega arith, refl), tt),
)

abbrev cycle : ℕ → Cycle
cycle b = record { byte = b; valid = true; er = 0 }

abbrev turn : Turn
turn = record {
  gated_idle = false;
  draw = none;
  tvalid = true;
  tsof = true;
  tdata = 5;
  terror = true;
  tlast = true;
}

stalled : Carries 1 true ((5, true) ∷ []) (turn ∷ turn ∷ [])
unfolding next_ready
stalled = waits turn refl (accepts turn refl (refl, refl, refl, refl, refl) carried)

sink_run-frame_example :
    (sink_run (ready_for [] 1) (turn ∷ turn ∷ [])).frames
    ≡ []
      ++ record {
        payload = bytes_of ((5, true) ∷ []);
        terror = any_error ((5, true) ∷ []);
        sof = true;
      }
        ∷ []
sink_run-frame_example =
    sink_run-frame [] 1 ((5, true) ∷ []) (turn ∷ turn ∷ []) stalled (omega arith) (omega arith)

rx_send-merged_example :
    rx_send ((1 ∷ []) ++ (2 ∷ [])) 1 (some (er_list none (1 ∷ []) ++ er_list none (2 ∷ [])))
    ≡ ok ((cycle 1 ∷ []) ++ (cycle 2 ∷ idle_cycle ∷ []))
unfolding rx_send drive_bytes
rx_send-merged_example =
    rx_send-merged (1 ∷ []) (2 ∷ []) 1 none none (cycle 1 ∷ []) (cycle 2 ∷ idle_cycle ∷ []) refl
      refl refl
