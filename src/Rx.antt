-- ===== src/Rx.antt =====
-- sim/cocotb/lib/rx_model.py: the receive policy, and the scoreboard of the receive path. An error
-- message is a value that holds what its text shows.
pub mod Policy
pub mod Oversize
pub mod Frames
pub mod Verdict
use mathlib.Core.Option
use emac_zero.Base.{
  Bool, List, [], false, if◌then◌else◌, length, ltb, not, take, true, ℕ, ◌%◌, ◌&&◌, ◌++◌, ◌+◌, ◌==◌,
  ◌||◌, ◌∷◌,
}
use emac_zero.Base.Py.{Bytes, Result, err, from_bytes, index_error, ok, slice, ◌>>=◌, ◌>>◌}
use emac_zero.Eth.{fcs}
use emac_zero.Scoreboard.{Diff, bytes_eq, first_diff}

abbrev pub broadcast : ℕ
broadcast = 0xFFFFFFFFFFFF

pub record RxFrame : Type 0 where
  pub payload : Bytes
  pub corrupt_fcs : Bool
  pub align_err : Bool

-- `_dst_int`
unfoldable pub dst_int : Bytes → ℕ
dst_int payload = from_bytes 0 (take 6 payload)

unfoldable pub filter_pass : Bytes → ℕ → Bool → Bool → Bool
filter_pass payload our_mac promisc passthrough =
    promisc || (passthrough || ((dst_int payload == our_mac) || (dst_int payload == broadcast)))

-- What the model expects on m_axis, and of the statistics of a frame.
pub record AxisFrame : Type 0 where
  pub payload : Bytes
  pub terror : Bool

pub record Stat : Type 0 where
  pub len : ℕ
  pub fcs : Bool
  pub align : Bool
  pub overflow : Bool
  pub oversize : Bool
  pub bcast : Bool
  pub mcast : Bool

-- The bounds that the caller may give: max_std=1518, max_jumbo=9018.
pub record Limits : Type 0 where
  pub jumbo_en : Bool
  pub max_std : ℕ
  pub max_jumbo : ℕ

unfoldable pub is_tagged : Bytes → Bool
is_tagged payload =
    bytes_eq (slice payload 12 14) (0x81 ∷ 0x00 ∷ [])
    || bytes_eq (slice payload 12 14) (0x88 ∷ 0xA8 ∷ [])

unfoldable pub is_oversize : Limits → Bytes → Bool
is_oversize lim payload =
    let byte_cnt = length payload + 4 in
    let over_std = ltb (lim.max_std + (if is_tagged payload then 4 else 0)) byte_cnt in
    over_std && (not lim.jumbo_en || ltb lim.max_jumbo byte_cnt)

-- `fr.payload[0] & 1`, which raises on an empty payload.
unfoldable pub group_bit : Bytes → Result Bool
group_bit [] = err index_error
group_bit (b ∷ bs) = ok (b % 2 == 1)

abbrev pub axis_of : Limits → RxFrame → AxisFrame
axis_of lim fr = record {
  payload = fr.payload;
  terror = fr.corrupt_fcs || (fr.align_err || is_oversize lim fr.payload);
}

abbrev pub stat_of : Limits → RxFrame → Bool → Stat
stat_of lim fr group = record {
  len = length fr.payload + 4;
  fcs = fr.corrupt_fcs;
  align = fr.align_err;
  overflow = false;
  oversize = is_oversize lim fr.payload;
  bcast = dst_int fr.payload == broadcast;
  mcast = group && not (dst_int fr.payload == broadcast);
}

-- The body of the loop for a frame that passes the filter.
unfoldable pub expect_frame : Limits → RxFrame → Result (AxisFrame × Stat)
expect_frame lim fr = do group ← group_bit fr.payload; ok (axis_of lim fr, stat_of lim fr group)

-- The loop, with the two lists it appends to.
unfoldable pub rx_loop :
    ℕ
    → Bool
    → Bool
    → Limits
    → List RxFrame
    → List AxisFrame
    → List Stat
    → Result (List AxisFrame × List Stat)
unfolding filter_pass expect_frame
rx_loop our_mac promisc passthrough lim [] axis stats = ok (axis, stats)
rx_loop our_mac promisc passthrough lim (fr ∷ frs) axis stats =
    elim (filter_pass fr.payload our_mac promisc passthrough) [
      | false ↦ rx_loop our_mac promisc passthrough lim frs axis stats
      | true ↦ expect_frame lim fr >>= λ out.
          rx_loop our_mac promisc passthrough lim frs (axis ++ out.0 ∷ []) (stats ++ out.1 ∷ [])
    ]

unfoldable pub rx_expected :
    List RxFrame → ℕ → Bool → Bool → Limits → Result (List AxisFrame × List Stat)
unfolding rx_loop
rx_expected frames our_mac promisc passthrough lim =
    rx_loop our_mac promisc passthrough lim frames [] []

-- What the sink records of a frame on m_axis.
pub record GotFrame : Type 0 where
  pub payload : Bytes
  pub terror : Bool
  pub sof : Bool

-- The keys that `_check_stats` compares.
pub data Key : Type 0 where
  key_len key_fcs key_align key_oversize key_bcast key_mcast : Key

pub data RxMessage : Type 0 where
  axis_count : ℕ → ℕ → RxMessage
  axis_payload : ℕ → ℕ → ℕ → Diff → RxMessage
  axis_terror : ℕ → Bool → Bool → RxMessage
  missing_tsof : ℕ → RxMessage
  stat_count : ℕ → ℕ → RxMessage
  stat_value : ℕ → Key → RxMessage

abbrev pub bool_eq : Bool → Bool → Bool
bool_eq a b = if a then b else not b

abbrev pub unless : Bool → RxMessage → List RxMessage
unless b m = if b then [] else m ∷ []

unfoldable pub axis_frame_errors : ℕ → AxisFrame → GotFrame → List RxMessage
axis_frame_errors i e g =
    unless (bytes_eq e.payload g.payload)
      (axis_payload i (length e.payload) (length g.payload) (first_diff e.payload g.payload))
    ++ (unless (bool_eq e.terror g.terror) (axis_terror i e.terror g.terror)
        ++ unless g.sof (missing_tsof i))

-- The loop over `enumerate(zip(…))` of `_check_axis`, from index `i`.
unfoldable pub axis_errors : ℕ → List AxisFrame → List GotFrame → List RxMessage
unfolding axis_frame_errors
axis_errors i [] gs = []
axis_errors i (e ∷ es) [] = []
axis_errors i (e ∷ es) (g ∷ gs) = axis_frame_errors i e g ++ axis_errors (i + 1) es gs

unfoldable pub stat_frame_errors : ℕ → Stat → Stat → List RxMessage
stat_frame_errors i e g =
    unless (e.len == g.len) (stat_value i key_len)
    ++ (unless (bool_eq e.fcs g.fcs) (stat_value i key_fcs)
        ++ (unless (bool_eq e.align g.align) (stat_value i key_align)
            ++ (unless (bool_eq e.oversize g.oversize) (stat_value i key_oversize)
                ++ (unless (bool_eq e.bcast g.bcast) (stat_value i key_bcast)
                    ++ unless (bool_eq e.mcast g.mcast) (stat_value i key_mcast)))))

-- The loop over `enumerate(zip(…))` of `_check_stats`, from index `i`.
unfoldable pub stat_errors : ℕ → List Stat → List Stat → List RxMessage
unfolding stat_frame_errors
stat_errors i [] gs = []
stat_errors i (e ∷ es) [] = []
stat_errors i (e ∷ es) (g ∷ gs) = stat_frame_errors i e g ++ stat_errors (i + 1) es gs

pub record RxScoreboard : Type 0 where
  pub exp_axis : List AxisFrame
  pub exp_stats : List Stat
  pub errors : List RxMessage

abbrev pub no_messages : List RxMessage → Bool
no_messages [] = true
no_messages (m ∷ ms) = false

unfoldable pub check_axis : RxScoreboard → List GotFrame → RxScoreboard
unfolding axis_errors
check_axis sb got = record sb {
  errors =
      sb.errors
      ++ (unless (length got == length sb.exp_axis) (axis_count (length sb.exp_axis) (length got))
          ++ axis_errors 0 sb.exp_axis got);
}

unfoldable pub check_stats : RxScoreboard → List Stat → RxScoreboard
unfolding stat_errors
check_stats sb got = record sb {
  errors =
      sb.errors
      ++ (unless (length got == length sb.exp_stats) (stat_count (length sb.exp_stats) (length got))
          ++ stat_errors 0 sb.exp_stats got);
}

-- `RxScoreboard.check`
unfoldable pub rx_check : RxScoreboard → List GotFrame → List Stat → RxScoreboard × Bool
unfolding check_axis check_stats
rx_check sb got_axis got_stats =
    let sb' = check_stats (check_axis sb got_axis) got_stats in (sb', no_messages sb'.errors)
