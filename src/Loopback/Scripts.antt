-- ===== src/Loopback/Scripts.antt =====
-- The tests `t_links` to `t_an_restart`.
use emac_zero.Base.{
  Bool, Option, false, if◌then◌else◌, leb, ltb, max, none, not, some, suc, true, zero, ℕ, ◌%◌, ◌&&◌,
  ◌*◌, ◌+◌, ◌-◌, ◌/◌, ◌==◌, ◌^◌, ◌||◌,
}
use emac_zero.Base.Py.{system_exit}
use emac_zero.Loopback.Board.{
  Lb, clear, pulse, read_status, run_traffic, set_off, set_on, wait_links,
}
use emac_zero.Loopback.Checks.{add_row, check_row, clean_traffic}
use emac_zero.Loopback.Status.{
  Status, TestName, an_off, an_off_test, an_restart, an_restart_test, in_w, laser0_off, laser1_off,
  layout, links, links_up, marker, neg, negative, ok_valid, sfp0_laser, sfp1_laser, sfp1_reset,
  sfp1_rst, short, short_frames, soak, traffic, traffic_bits,
}
use emac_zero.Session.{Host, info, is_some, pure, raise, skip, sleep, ◌>>=◌, ◌>>◌}

-- The arguments that the tests read.
pub record Args : Type 0 where
  pub seconds : ℕ
  pub neg_seconds : ℕ
  pub soak_time : ℕ
  pub interval : ℕ

-- abs(userclk2_mhz(s) - 125.0) < 0.1, over the common denominator
unfoldable pub clock_good : Status → Bool
clock_good s =
    let scaled = s.userclk2_count * 500 in
    let wanted = 1250 * 2 ^ 22 in ltb (scaled - wanted) (2 ^ 22) && ltb (wanted - scaled) (2 ^ 22)

unfoldable pub identified : ℕ → Status → Bool
identified width s = (s.marker == marker) && (s.layout == layout) && (width == in_w)

-- The condition of the last check of `t_negative`, and of the check of `t_short`.
unfoldable pub negative_clean : Status → Bool
negative_clean s =
    (ok_valid s + s.ok_neg + s.neg_replies == s.tx_count) && (s.bad == 0) && (s.timeouts == 0)

unfoldable pub short_clean : Status → Bool
short_clean s =
    (ok_valid s == s.tx_count)
    && ltb 0 s.ok_icmp
    && ltb 0 s.ok_udp
    && (s.bad == 0)
    && (s.timeouts == 0)

-- The loop over NEG_VARIANTS, from variant `v` on.
unfoldable pub check_variants : ℕ → ℕ → ℕ → Lb (Unit {0})
check_variants fails zero v = pure tt
check_variants fails (suc more) v = do
  check_row negative (not (fails / 2 ^ v % 2 == 1))
  check_variants fails more (v + 1)

-- What `link_event` says of the drop, and whether it goes on; `expect_down` is None, False or True.
unfoldable pub judge_drop : TestName → Option Bool → Bool → Lb Bool
judge_drop test none dropped = if dropped then pure true else do add_row skip test; pure false
judge_drop test (some false) dropped = do add_row info test; pure true
judge_drop test (some true) dropped = do check_row test dropped; pure true

module _ (h : Host) where
  unfoldable pub t_links : Args → Lb (Unit {0})
  t_links a = do
    s ← read_status h
    ident ← check_row links (identified h.in_w s)
    if not ident then raise system_exit else do
      add_row info links
      check_row links (clock_good s)
      check_row links (not (s.refclk_ready == 0))
      check_row links (not (s.sfp0_resetdone == 0) && not (s.sfp1_resetdone == 0))
      t ← wait_links h 30000
      check_row links (is_some t)
      pure tt

  unfoldable pub t_traffic : Args → Lb (Unit {0})
  t_traffic a = do s ← clean_traffic h traffic a.seconds a.interval; add_row info traffic

  unfoldable pub t_soak : Args → Lb (Unit {0})
  t_soak a = if a.soak_time == 0 then add_row skip soak else do
    s ← clean_traffic h soak a.soak_time (max a.interval 60000)
    if (s.bad == 0) && (s.timeouts == 0) && not (s.rx_bytes == 0)
        then add_row info soak
        else pure tt

  unfoldable pub t_negative : Args → Lb (Unit {0})
  t_negative a = do
    s ← run_traffic h a.neg_seconds neg 0
    check_row negative (leb 16 (s.ok_neg + s.neg_replies))
    check_variants s.neg_fail 8 0
    check_row negative (negative_clean s)
    pure tt

  unfoldable pub t_short : Args → Lb (Unit {0})
  t_short a = do
    s ← run_traffic h 5000 short 0
    if not (s.bad == 0) || not (s.timeouts == 0) then add_row info short_frames else pure tt
    check_row short_frames (short_clean s)
    pure tt

  unfoldable pub recovered : TestName → Option ℕ → Lb Bool
  recovered test t = do
    back ← check_row test (is_some t)
    if not back then pure false else do s ← clean_traffic h test 5000 0; pure true

  unfoldable pub link_event : TestName → ℕ → ℕ → Option Bool → Lb Bool
  link_event test bits hold expect_down = do
    set_off h traffic_bits
    clear h
    set_on h bits
    sleep h hold
    during ← read_status h
    set_off h bits
    t ← wait_links h 30000
    after ← read_status h
    goes_on ←
        judge_drop test expect_down
          (ltb 0 (after.sfp0_downs + after.sfp1_downs) || not (links_up during))
    if not goes_on then pure false else recovered test t

  unfoldable pub t_sfp1_laser : Args → Lb (Unit {0})
  t_sfp1_laser a = do link_event sfp1_laser laser1_off 1000 none; pure tt

  unfoldable pub t_sfp0_laser : Args → Lb (Unit {0})
  t_sfp0_laser a = do link_event sfp0_laser laser0_off 1000 none; pure tt

  unfoldable pub t_sfp1_reset : Args → Lb (Unit {0})
  t_sfp1_reset a = do link_event sfp1_reset sfp1_rst 200 (some true); pure tt

  -- A restart may be needed to relink.
  unfoldable pub relink : Option ℕ → Lb (Option ℕ)
  relink (some t) = pure (some t)
  relink none = do pulse h an_restart 100; wait_links h 10000

  -- `if r.check(…): clean_traffic(…)`
  unfoldable pub traffic_if_up : Option ℕ → Lb (Unit {0})
  traffic_if_up t = do up ← recovered an_off_test t; pure tt

  unfoldable pub t_an_off : Args → Lb (Unit {0})
  t_an_off a = do
    before ← read_status h
    if not (before.an_disabled == 0) then add_row skip an_off_test else do
      set_off h traffic_bits
      set_on h an_off
      sleep h 200
      s ← read_status h
      check_row an_off_test (not (s.an_disabled == 0))
      t ← wait_links h 10000
      t1 ← relink t
      traffic_if_up t1
      set_off h an_off
      pulse h an_restart 100
      t2 ← wait_links h 15000
      traffic_if_up t2

  unfoldable pub t_an_restart : Args → Lb (Unit {0})
  t_an_restart a = do link_event an_restart_test an_restart 100 (some false); pure tt

  -- TESTS[n](b, r, a)
  unfoldable pub run_test : TestName → Args → Lb (Unit {0})
  run_test links = t_links
  run_test traffic = t_traffic
  run_test negative = t_negative
  run_test short_frames = t_short
  run_test sfp1_laser = t_sfp1_laser
  run_test sfp0_laser = t_sfp0_laser
  run_test sfp1_reset = t_sfp1_reset
  run_test an_off_test = t_an_off
  run_test an_restart_test = t_an_restart
  run_test soak = t_soak
