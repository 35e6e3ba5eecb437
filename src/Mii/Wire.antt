-- ===== src/Mii/Wire.antt =====
-- The frame that the receive driver of Gmii sends, taken from its nibbles by the monitor.
use mathlib.Core.List.{append_assoc, append-nil}
use emac_zero.Base.{
  Bool, List, Option, [], ap, arith, false, if◌then◌else◌, length, not, refl, replicate, true, ℕ,
  ◌%◌, ◌++◌, ◌+◌, ◌/◌, ◌<◌, ◌^◌, ◌∙◌, ◌∷◌, ◌≡◌,
}
use emac_zero.Base.Predicates.{All-append, IsBytes}
use emac_zero.Base.Py.{Bytes}
use emac_zero.Eth.{fcs_bytes, fcs_ok, preamble_byte, preamble_len, sfd}
use emac_zero.Eth.Fcs.{fcs_bytes-IsBytes, fcs_ok-fcs_bytes}
use emac_zero.Gmii.{Beat, SendOptions, beats, er_index, flip_first, idle_beat, send_frame}
use emac_zero.Mii.{MiiMonitor, MonitorState, fcs_mismatch, finish, run_samples, sample}
use emac_zero.Mii.Finish.{
  fcs_ok-flip_first, finish-framed, flip_first-IsBytes, framed, nibbles_of, take_frame-framed,
}

-- A beat as the MII carries it: the low nibble first.
abbrev pub mii_samples : List Beat → List (Bool × ℕ)
mii_samples [] = []
mii_samples (b ∷ bs) =
    if b.rx_dv
    then (true, b.rxd % 16) ∷ (true, b.rxd / 16) ∷ mii_samples bs
    else (false, 0) ∷ mii_samples bs

-- Between frames, and within one.
abbrev pub waiting : MiiMonitor → MonitorState
waiting m = record { mon = m; nibbles = []; active = false }

abbrev collecting : MiiMonitor → List ℕ → MonitorState
collecting m ns = record { mon = m; nibbles = ns; active = true }

-- The options of a frame with the standard preamble.
abbrev pub standard : Bool → Bool → Option ℕ → SendOptions
standard corrupt align er = record {
  corrupt_fcs = corrupt;
  align_err = align;
  er_wire_idx = er;
  preamble_len = preamble_len;
  lead = [];
}

abbrev pub sent_fcs : (Bytes → ℕ) → Bool → Bytes → Bytes
sent_fcs crc32 corrupt payload =
    if corrupt then flip_first (fcs_bytes crc32 payload) else fcs_bytes crc32 payload

module _ (crc32 : Bytes → ℕ) where
  two_samples :
      (s : MonitorState) (b : ℕ) (rest : List (Bool × ℕ))
      → b < 256
      → run_samples crc32 s ((true, b % 16) ∷ (true, b / 16) ∷ rest)
        ≡ run_samples crc32 (collecting s.mon (s.nibbles ++ b % 16 ∷ b / 16 ∷ [])) rest
  unfolding run_samples sample
  two_samples s b rest h =
      let x : b % 16 % 2 ^ 4 ≡ b % 16 = omega arith in
      let y : b / 16 % 2 ^ 4 ≡ b / 16 = omega arith in
      rw (x, y, append_assoc s.nibbles (b % 16 ∷ []) (b / 16 ∷ [])) refl

  -- While rx_dv is up, the nibbles are collected, whatever rx_er does.
  run_beats :
      (er : Option ℕ) (i : ℕ) (bs : Bytes) (m : MiiMonitor) (ns : List ℕ) (rest : List Beat)
      → IsBytes bs
      → run_samples crc32 (collecting m ns) (mii_samples (beats er i bs ++ rest))
        ≡ run_samples crc32 (collecting m (ns ++ nibbles_of bs)) (mii_samples rest)
  unfolding beats
  run_beats er i [] m ns rest h = rw (append-nil ns) refl
  run_beats er i (b ∷ bs) m ns rest h =
      two_samples (collecting m ns) b (mii_samples (beats er (i + 1) bs ++ rest)) h.0
      ∙ (run_beats er (i + 1) bs m (ns ++ b % 16 ∷ b / 16 ∷ []) rest h.1
          ∙ rw (append_assoc ns (b % 16 ∷ b / 16 ∷ []) (nibbles_of bs)) refl)

  run_frame :
      (er : Option ℕ) (b : ℕ) (bs : Bytes) (m : MiiMonitor)
      → IsBytes (b ∷ bs)
      → run_samples crc32 (waiting m) (mii_samples (beats er 0 (b ∷ bs) ++ idle_beat ∷ []))
        ≡ waiting (finish crc32 m (nibbles_of (b ∷ bs)))
  run_frame er b bs m h =
      unfold beats in
      two_samples (waiting m) b (mii_samples (beats er 1 bs ++ idle_beat ∷ [])) h.0
      ∙ (run_beats er 1 bs m (b % 16 ∷ b / 16 ∷ []) (idle_beat ∷ []) h.1
          ∙ unfold run_samples sample in refl)

  length-sent_fcs : (corrupt : Bool) (payload : Bytes) → length (sent_fcs crc32 corrupt payload) ≡ 4
  unfolding fcs_bytes flip_first
  length-sent_fcs true payload = refl
  length-sent_fcs false payload = refl

  sent_fcs-IsBytes : (corrupt : Bool) (payload : Bytes) → IsBytes (sent_fcs crc32 corrupt payload)
  sent_fcs-IsBytes true payload = flip_first-IsBytes crc32 payload
  sent_fcs-IsBytes false payload = fcs_bytes-IsBytes crc32 payload

  framed-IsBytes : (payload f : Bytes) → IsBytes payload → IsBytes f → IsBytes (framed payload f)
  framed-IsBytes payload f h k =
      All-append _ (replicate preamble_len preamble_byte) (sfd ∷ (payload ++ f)) (omega arith)
        (omega arith, All-append _ payload f h k)

  sent_fcs_ok :
      (corrupt : Bool) (payload : Bytes)
      → fcs_ok crc32 payload (sent_fcs crc32 corrupt payload) ≡ not corrupt
  sent_fcs_ok true payload = fcs_ok-flip_first crc32 payload
  sent_fcs_ok false payload = fcs_ok-fcs_bytes crc32 payload

  verdict :
      (m : MiiMonitor) (payload : Bytes) (corrupt : Bool)
      → (if fcs_ok crc32 payload (sent_fcs crc32 corrupt payload)
          then record m { payloads = m.payloads ++ payload ∷ [] }
          else record {
            payloads = m.payloads ++ payload ∷ [];
            fcs_errors = m.fcs_errors + 1;
            framing_errors = m.framing_errors ++ fcs_mismatch (length payload) ∷ [];
          })
        ≡ record {
          payloads = m.payloads ++ payload ∷ [];
          fcs_errors = m.fcs_errors + (if corrupt then 1 else 0);
          framing_errors =
              m.framing_errors ++ (if corrupt then fcs_mismatch (length payload) ∷ [] else []);
        }
  verdict m payload true = rw (sent_fcs_ok true payload) refl
  verdict m payload false =
      let z : m.fcs_errors + 0 ≡ m.fcs_errors = omega arith in
      rw (sent_fcs_ok false payload, z, append-nil m.framing_errors) refl

  -- A frame of bytes that the driver sends with the standard preamble is recovered: the monitor adds its
  -- payload, and an error exactly if the FCS was to be corrupted, wherever rx_er was raised.
  pub monitor-send_frame :
      (payload : Bytes) (corrupt align : Bool) (er : Option ℕ) (m : MiiMonitor)
      → IsBytes payload
      → run_samples crc32
          (waiting m)
          (mii_samples (send_frame crc32 (standard corrupt align er) payload))
        ≡ waiting (record {
          payloads = m.payloads ++ payload ∷ [];
          fcs_errors = m.fcs_errors + (if corrupt then 1 else 0);
          framing_errors =
              m.framing_errors ++ (if corrupt then fcs_mismatch (length payload) ∷ [] else []);
        })
  unfolding send_frame
  monitor-send_frame payload corrupt align er m h =
      let f : Bytes = sent_fcs crc32 corrupt payload in
      let fb : IsBytes (framed payload f) =
        framed-IsBytes payload f h (sent_fcs-IsBytes corrupt payload) in
      let a =
        run_frame (er_index (standard corrupt align er) payload) preamble_byte
          (replicate 6 preamble_byte ++ (sfd ∷ (payload ++ f))) m fb in
      let b = finish-framed crc32 m payload f (length-sent_fcs corrupt payload) fb in
      let c = take_frame-framed crc32 m payload f (length-sent_fcs corrupt payload) in
      a ∙ ap waiting (b ∙ (c ∙ verdict m payload corrupt))
