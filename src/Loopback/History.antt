-- ===== src/Loopback/History.antt =====
-- No test takes back a row or a word.
use emac_zero.Base.{
  Bool, Option, [], arith, false, if◌then◌else◌, max, none, not, refl, some, suc, true, zero, ℕ,
  ◌%◌, ◌&&◌, ◌+◌, ◌/◌, ◌==◌, ◌^◌, ◌||◌, ◌∷◌,
}
use emac_zero.Base.Py.{system_exit}
use emac_zero.Loopback.Board.{Lb, clear, pulse, set_off, wait_links}
use emac_zero.Loopback.Checks.{add_row, all_answered, all_kinds, check_row, clean_traffic}
use emac_zero.Loopback.Later.{
  Grows, cond-Grows, pulse-Grows, raise-Grows, read_status-Grows, run_traffic-Grows, same-Grows,
  set_off-Grows, set_on-Grows, sleep-Grows, then-Grows, wait_links-Grows,
}
use emac_zero.Loopback.Scripts.{
  Args, check_variants, identified, judge_drop, link_event, negative_clean, recovered, relink,
  run_test, short_clean, t_an_off, t_an_restart, t_links, t_negative, t_sfp0_laser, t_sfp1_laser,
  t_sfp1_reset, t_short, t_soak, t_traffic, traffic_if_up,
}
use emac_zero.Loopback.Status.{
  TestName, an_off, an_off_test, an_restart, an_restart_test, clear_bit, laser0_off, laser1_off,
  links, neg, negative, sfp0_laser, sfp1_laser, sfp1_reset, sfp1_rst, short, short_frames, soak,
  traffic, traffic_bits,
}
use emac_zero.Session.{Host, Verdict, fail, info, is_some, pass, pure, skip, ◌>>=◌, ◌>>◌}

pub add_row-Grows : (v : Verdict) (t : TestName) → Grows (add_row v t)
unfolding add_row
add_row-Grows v t = record {
  grows = λ w. (((v, t) ∷ [], refl), ([], refl), omega arith, omega arith);
}

check_row-Grows : (t : TestName) (b : Bool) → Grows (check_row t b)
unfolding check_row
check_row-Grows t b = then-Grows (add_row-Grows (if b then pass else fail) t) (λ u. same-Grows b)

check_variants-Grows : (more fails v : ℕ) → Grows (check_variants fails more v)
unfolding check_variants
check_variants-Grows zero fails v = same-Grows tt
check_variants-Grows (suc more) fails v =
    then-Grows (check_row-Grows negative (not (fails / 2 ^ v % 2 == 1)))
      (λ b. check_variants-Grows more fails (v + 1))

judge_drop-Grows :
    (t : TestName) (expect_down : Option Bool) (b : Bool) → Grows (judge_drop t expect_down b)
unfolding judge_drop
judge_drop-Grows t none b =
    cond-Grows b (same-Grows true) (then-Grows (add_row-Grows skip t) (λ u. same-Grows false))
judge_drop-Grows t (some false) b = then-Grows (add_row-Grows info t) (λ u. same-Grows true)
judge_drop-Grows t (some true) b = then-Grows (check_row-Grows t b) (λ u. same-Grows true)

module _ (h : Host) where
  pub clean_traffic-Grows :
      (t : TestName) (seconds progress : ℕ) → Grows (clean_traffic h t seconds progress)
  unfolding clean_traffic
  clean_traffic-Grows t seconds progress = then-Grows (run_traffic-Grows h seconds 0 progress) (λ s.
      then-Grows (check_row-Grows t (all_kinds s))
        (λ b. then-Grows (check_row-Grows t (all_answered s)) (λ b'. same-Grows s)))

  recovered-Grows : (t : TestName) (o : Option ℕ) → Grows (recovered h t o)
  unfolding recovered
  recovered-Grows t o = then-Grows (check_row-Grows t (is_some o)) (λ back.
      cond-Grows (not back) (same-Grows false)
        (then-Grows (clean_traffic-Grows t 5000 0) (λ s. same-Grows true)))

  traffic_if_up-Grows : (o : Option ℕ) → Grows (traffic_if_up h o)
  unfolding traffic_if_up
  traffic_if_up-Grows o = then-Grows (recovered-Grows an_off_test o) (λ up. same-Grows tt)

  link_event-Grows :
      (t : TestName) (bits hold : ℕ) (expect_down : Option Bool)
      → Grows (link_event h t bits hold expect_down)
  unfolding link_event clear
  link_event-Grows t bits hold expect_down = then-Grows (set_off-Grows h traffic_bits) (λ u.
      then-Grows (pulse-Grows h clear_bit 50) (λ u1. then-Grows (set_on-Grows h bits) (λ u2.
        then-Grows (sleep-Grows h hold) (λ u3. then-Grows (read_status-Grows h) (λ during.
          then-Grows (set_off-Grows h bits) (λ u4. then-Grows (wait_links-Grows h 30000) (λ o.
            then-Grows (read_status-Grows h) (λ after.
              then-Grows (judge_drop-Grows t expect_down _) (λ goes_on.
                cond-Grows (not goes_on) (same-Grows false) (recovered-Grows t o))))))))))

  event_test-Grows : {m : Lb Bool} → Grows m → Grows (m >>= λ b. pure tt)
  event_test-Grows l = then-Grows l (λ b. same-Grows tt)

  t_links-Grows : (a : Args) → Grows (t_links h a)
  unfolding t_links
  t_links-Grows a = then-Grows (read_status-Grows h) (λ s.
      then-Grows (check_row-Grows links (identified h.in_w s)) (λ ident.
        cond-Grows (not ident) (raise-Grows system_exit) (
          then-Grows (add_row-Grows info links) (λ u. then-Grows (check_row-Grows links _) (λ b1.
            then-Grows (check_row-Grows links _) (λ b2. then-Grows (check_row-Grows links _) (λ b3.
              then-Grows (wait_links-Grows h 30000)
                (λ o. event_test-Grows (check_row-Grows links (is_some o))))))))))

  t_traffic-Grows : (a : Args) → Grows (t_traffic h a)
  unfolding t_traffic
  t_traffic-Grows a =
      then-Grows (clean_traffic-Grows traffic a.seconds a.interval)
        (λ s. add_row-Grows info traffic)

  t_soak-Grows : (a : Args) → Grows (t_soak h a)
  unfolding t_soak
  t_soak-Grows a = cond-Grows (a.soak_time == 0) (add_row-Grows skip soak) (
      then-Grows (clean_traffic-Grows soak a.soak_time (max a.interval 60000)) (λ s.
        cond-Grows ((s.bad == 0) && (s.timeouts == 0) && not (s.rx_bytes == 0))
          (add_row-Grows info soak) (same-Grows tt)))

  t_negative-Grows : (a : Args) → Grows (t_negative h a)
  unfolding t_negative
  t_negative-Grows a = then-Grows (run_traffic-Grows h a.neg_seconds neg 0) (λ s.
      then-Grows (check_row-Grows negative _) (λ b.
        then-Grows (check_variants-Grows 8 s.neg_fail 0)
          (λ u. event_test-Grows (check_row-Grows negative (negative_clean s)))))

  t_short-Grows : (a : Args) → Grows (t_short h a)
  unfolding t_short
  t_short-Grows a = then-Grows (run_traffic-Grows h 5000 short 0) (λ s.
      then-Grows
        (cond-Grows (not (s.bad == 0) || not (s.timeouts == 0)) (add_row-Grows info short_frames)
          (same-Grows tt))
        (λ u. event_test-Grows (check_row-Grows short_frames (short_clean s))))

  relink-Grows : (o : Option ℕ) → Grows (relink h o)
  unfolding relink
  relink-Grows (some t) = same-Grows (some t)
  relink-Grows none = then-Grows (pulse-Grows h an_restart 100) (λ u. wait_links-Grows h 10000)

  t_an_off-Grows : (a : Args) → Grows (t_an_off h a)
  unfolding t_an_off
  t_an_off-Grows a = then-Grows (read_status-Grows h) (λ before.
      cond-Grows (not (before.an_disabled == 0)) (add_row-Grows skip an_off_test) (
        then-Grows (set_off-Grows h traffic_bits) (λ u. then-Grows (set_on-Grows h an_off) (λ u1.
          then-Grows (sleep-Grows h 200) (λ u2. then-Grows (read_status-Grows h) (λ s.
            then-Grows (check_row-Grows an_off_test _) (λ b.
              then-Grows (wait_links-Grows h 10000)
                (λ o. then-Grows (relink-Grows o) (λ o1. an_back-Grows o1)))))))))
    where
      an_back-Grows :
          (o : Option ℕ)
          → Grows (do
            traffic_if_up h o
            set_off h an_off
            pulse h an_restart 100
            t2 ← wait_links h 15000
            traffic_if_up h t2)
      an_back-Grows o = then-Grows (traffic_if_up-Grows o) (λ u.
          then-Grows (set_off-Grows h an_off) (λ u1.
            then-Grows (pulse-Grows h an_restart 100)
              (λ u2. then-Grows (wait_links-Grows h 15000) (λ o2. traffic_if_up-Grows o2))))

  pub run_test-Grows : (t : TestName) (a : Args) → Grows (run_test h t a)
  unfolding run_test t_sfp1_laser t_sfp0_laser t_sfp1_reset t_an_restart
  run_test-Grows links a = t_links-Grows a
  run_test-Grows traffic a = t_traffic-Grows a
  run_test-Grows negative a = t_negative-Grows a
  run_test-Grows short_frames a = t_short-Grows a
  run_test-Grows soak a = t_soak-Grows a
  run_test-Grows sfp1_laser a = event_test-Grows (link_event-Grows sfp1_laser laser1_off 1000 none)
  run_test-Grows sfp0_laser a = event_test-Grows (link_event-Grows sfp0_laser laser0_off 1000 none)
  run_test-Grows sfp1_reset a =
      event_test-Grows (link_event-Grows sfp1_reset sfp1_rst 200 (some true))
  run_test-Grows an_off_test a = t_an_off-Grows a
  run_test-Grows an_restart_test a =
      event_test-Grows (link_event-Grows an_restart_test an_restart 100 (some false))
