-- ===== src/Sink.antt =====
-- sim/cocotb/lib/axis_sink.py: the sink that takes frames from m_axis while it stalls at random.
pub mod Capture
use mathlib.Core.Option
use emac_zero.Base.{
  Bool, List, Option, [], false, get_or, if◌then◌else◌, ltb, true, ℕ, ◌&&◌, ◌++◌, ◌-◌, ◌||◌, ◌∷◌,
}
use emac_zero.Base.Bits.{low_bits}
use emac_zero.Base.Py.{Bytes, err}
use emac_zero.Rx.{GotFrame}

-- What one turn of the loop samples: whether the input is idle while `active_signal` is watched, the
-- stall that the generator draws where the code draws one (`none` where random() is not below
-- p_stall), and the m_axis outputs.
pub record Turn : Type 0 where
  pub gated_idle : Bool
  pub draw : Option ℕ
  pub tvalid : Bool
  pub tsof : Bool
  pub tdata : ℕ
  pub terror : Bool
  pub tlast : Bool

-- `AxisSink.frames` with the locals of `run`.
pub record AxisSink : Type 0 where
  pub frames : List GotFrame
  pub cur : Bytes
  pub err : Bool
  pub sof_seen : Bool
  pub stall : ℕ

-- The value of m_axis_tready, and the stall that is left.
unfoldable pub next_ready : ℕ → Turn → Bool × ℕ
next_ready stall c =
    if c.gated_idle
    then (true, 0)
    else if ltb 0 stall
    then (false, stall - 1)
    else (true, Option.get_or c.draw 0)

-- The body of `if int(dut.m_axis_tvalid.value) and …`.
unfoldable pub take_beat : AxisSink → Turn → AxisSink
take_beat s c =
    let cur0 = if c.tsof then [] else s.cur in
    let err0 = if c.tsof then false else s.err in
    let sof = c.tsof || s.sof_seen in
    let cur1 = cur0 ++ low_bits c.tdata 8 ∷ [] in
    let err1 = c.terror || err0 in
    if c.tlast
    then record s {
      frames = s.frames ++ record { payload = cur1; terror = err1; sof = sof } ∷ [];
      cur = [];
      err = false;
      sof_seen = false;
    }
    else record s { cur = cur1; err = err1; sof_seen = sof }

unfoldable pub sink_step : AxisSink → Turn → AxisSink
sink_step s c =
    let (ready, stall') = next_ready s.stall c in
    let s' = record s { stall = stall' } in if c.tvalid && ready then take_beat s' c else s'

unfoldable pub sink_run : AxisSink → List Turn → AxisSink
sink_run s [] = s
sink_run s (c ∷ cs) = sink_run (sink_step s c) cs
