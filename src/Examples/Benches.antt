-- ===== src/Examples/Benches.antt =====
-- The theorems on what the benches share, at a design that takes a beat at every other edge.
use emac_zero.Base.{
  Bool, Bool-cases, List, Option, [], arith, bit_xor, false, if◌then◌else◌, inl, inr, length, none,
  refl, some, true, ℕ, ◌%◌, ◌++◌, ◌+◌, ◌==◌, ◌∷◌, ◌≡◌, ◌↔◌,
}
use emac_zero.Base.Predicates.{All}
use emac_zero.Base.Py.{assertion_error, err, Bytes, le_bytes4, ok}
use emac_zero.Bench.Bus.{Bus, IsLive, at_once, later, taken}
use emac_zero.Bench.Capture.{bridge_run, capture_run}
use emac_zero.Bench.Capture.Buffer.{bridge_run-frame, filled, idle_bridge}
use emac_zero.Bench.Capture.Frames.{
  all_numbered, capture_run-wire_all, gap, idle_capture, sizes, wire_all, wire_bytes,
}
use emac_zero.Bench.Checks.{Checked, bench_finish, checked, compared, no_checks, run_checked}
use emac_zero.Bench.Checks.Verdict.{AllHold, bench_finish_iff}
use emac_zero.Bench.Crc.{crc32_byte, crc_raw, crc_step}
use emac_zero.Bench.Crc.Linear.{crc_step-eq-crc32_byte}
use emac_zero.Bench.Crc.Residue.{all_ones, crc_raw-residue}
use emac_zero.Bench.Master.{send_all}
use emac_zero.Bench.Master.Stream.{send_all-stream}
use emac_zero.Bench.Negedge.{send_negedge_style}
use emac_zero.Bench.Negedge.Lost.{send_negedge_style-first}
use emac_zero.Bench.Paced.{Pace, saf_send_frame, within}
use emac_zero.Bench.Paced.Whole.{Patient, beats_from, saf_send_frame-whole}
use emac_zero.Bench.Posedge.{send_frame_posedge}
use emac_zero.Bench.Posedge.Sent.{send_frame_posedge-marked}
use emac_zero.Bench.Transfer.{Adds}
use emac_zero.Examples.Checksums.{least}
use emac_zero.FrameGen.{boundary_sizes, bulk, random_segments}
use emac_zero.FrameGen.Ends.{IsSized, longest, random_segments-committed}
use emac_zero.FrameGen.Sizes.{Among, IsAbove, IsCorner, boundary_sizes-IsAbove}
use emac_zero.Saf.{Segment, flatten_segments, marked, run, start}

abbrev every_other : ℕ → Bool
every_other t = t % 2 == 1

every_other-IsLive : IsLive every_other 2
every_other-IsLive t = elim (Bool-cases (every_other t)) [
  | inl y ↦ (0, omega arith, at_once y)
  | inr n ↦ (1, omega arith, later n (at_once (ground arith)))
]

abbrev quiet_bus : Bus
quiet_bus = record {
  now = record { tvalid = false; tdata = 0; tlast = false };
  time = 0;
  trace = [];
}

abbrev two_segments : List Segment
two_segments =
    record { bytes = 1 ∷ 2 ∷ []; last = false } ∷ record { bytes = 3 ∷ []; last = true } ∷ []

-- The second byte draws a bubble of 3 cycles.
abbrev one_bubble : ℕ → Option ℕ
one_bubble j = if j == 1 then some 3 else none

send_all-stream_example :
    Adds every_other
      (send_all every_other 2 one_bubble 0 two_segments quiet_bus)
      quiet_bus
      (flatten_segments two_segments)
send_all-stream_example =
    send_all-stream every_other 2 one_bubble every_other-IsLive two_segments 0 quiet_bus

abbrev pace : Pace
pace = record {
  plen = 4;
  first = 300;
  bub = 2;
  set_last = true;
  watchdog = some 5;
  trailing_idle = true;
}

patient : Patient pace 2
unfolding within
patient stall h = ground arith

saf_send_frame-whole_example :
    (bus' : Bus) × (saf_send_frame every_other pace 9 quiet_bus ≡ some (4, bus'))
    × (taken bus'.trace ≡ taken [] ++ (44, false) ∷ beats_from pace 1 3)
saf_send_frame-whole_example =
    saf_send_frame-whole every_other pace 2 patient 9 quiet_bus every_other-IsLive (omega arith)
      (omega arith)

send_frame_posedge-marked_example :
    Adds every_other
      (send_frame_posedge every_other 2 2 (7 ∷ 8 ∷ 9 ∷ []) quiet_bus)
      quiet_bus
      (marked true (2 + 1) 0 (7 ∷ 8 ∷ 9 ∷ []))
send_frame_posedge-marked_example =
    send_frame_posedge-marked every_other 2 every_other-IsLive 2 7 (8 ∷ 9 ∷ []) quiet_bus refl

-- tready is low at the first edge, so the byte 7 is lost.
send_negedge_style-first_example :
    Adds every_other (send_negedge_style every_other 2 (7 ∷ 8 ∷ 9 ∷ []) quiet_bus) quiet_bus (
      if every_other 0
      then marked true 3 0 (7 ∷ 8 ∷ 9 ∷ [])
      else marked true 3 (0 + 1) (8 ∷ 9 ∷ []))
send_negedge_style-first_example =
    send_negedge_style-first every_other 2 every_other-IsLive 7 (8 ∷ 9 ∷ []) quiet_bus

-- Two frames, the first with a nibble without its pair.
abbrev two_frames : List (Bytes × Option ℕ)
two_frames = (0xA5 ∷ 0x3C ∷ [], some 5) ∷ (0x11 ∷ [], none) ∷ []

capture_run-wire_all_example :
    (l' : Option ℕ) × (capture_run (idle_capture none [] []) (wire_all two_frames)
      ≡ idle_capture l' ([] ++ all_numbered two_frames) ([] ++ sizes two_frames))
capture_run-wire_all_example =
    capture_run-wire_all two_frames none [] []
      ((omega arith, (omega arith, tt)), omega arith, ((omega arith, tt), omega arith, tt))

-- A frame of three bytes in a buffer of two.
bridge_run-frame_example :
    (l' : Option ℕ) × (bridge_run
        (idle_bridge 2 [] (none ∷ none ∷ []) 0 (some 0))
        (wire_bytes (1 ∷ 2 ∷ 3 ∷ []) (gap none ∷ []))
      ≡ record (idle_bridge 2 [] (filled (1 ∷ 2 ∷ 3 ∷ []) (none ∷ none ∷ [])) 3 l') {
        ends = [] ++ (3, filled (1 ∷ 2 ∷ 3 ∷ []) (none ∷ none ∷ [])) ∷ [];
      })
bridge_run-frame_example = bridge_run-frame 2 [] 1 (2 ∷ 3 ∷ []) 0 (some 0) (none ∷ none ∷ []) refl

crc_raw-residue_example :
    crc_raw ((1 ∷ 2 ∷ []) ++ le_bytes4 (bit_xor (crc_raw (1 ∷ 2 ∷ []) all_ones) all_ones)) all_ones
    ≡ 0xDEBB20E3
crc_raw-residue_example = crc_raw-residue (1 ∷ 2 ∷ [])

crc_step-eq-crc32_byte_example : crc_step all_ones 0x5A ≡ crc32_byte all_ones 0x5A
crc_step-eq-crc32_byte_example = crc_step-eq-crc32_byte all_ones 0x5A (omega arith) (omega arith)

abbrev three_checks : List (Checked ℕ)
three_checks = checked 1 true ∷ compared 2 5 5 ∷ compared 3 5 6 ∷ []

bench_finish_iff_example :
    ((run_checked no_checks three_checks).failed ≡ 3 ∷ [])
    × ((run_checked no_checks three_checks).passed + 1 ≡ 3)
    × ((bench_finish (run_checked no_checks three_checks) ≡ ok 3) ↔ AllHold three_checks)
    × ((AllHold three_checks → ⊥)
        → bench_finish (run_checked no_checks three_checks) ≡ err assertion_error)
bench_finish_iff_example = bench_finish_iff three_checks

random_segments-committed_example :
    (length (random_segments least (λ s. (bulk, s)) (λ s. (true, s)) 2 64 128 tt) ≡ 2)
    × All
        (IsSized (longest 64 128))
        (random_segments least (λ s. (bulk, s)) (λ s. (true, s)) 2 64 128 tt)
    × ((run 64 start (
          flatten_segments
            (random_segments least (λ s. (bulk, s)) (λ s. (true, s)) 2 64 128 tt))).cur
        ≡ [])
random_segments-committed_example =
    random_segments-committed least 64 128 (omega arith) (omega arith) (λ s. (bulk, s))
      (λ s. (true, s)) 2 tt (omega arith)

boundary_sizes-IsAbove_example :
    IsAbove 0 (boundary_sizes 64 128) × (Among 63 (boundary_sizes 64 128) ↔ IsCorner 64 128 63)
boundary_sizes-IsAbove_example = boundary_sizes-IsAbove 64 128 63 (omega arith)
