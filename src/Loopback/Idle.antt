-- ===== src/Loopback/Idle.antt =====
-- Every test that returns leaves the output word as it was before it: no laser off, no reset.
use mathlib.Core.Path.{subst}
use emac_zero.Base.{
  Bool, Option, bit_or, false, if◌then◌else◌, max, none, not, refl, some, suc, true, zero, ℕ, ◌%◌,
  ◌&&◌, ◌+◌, ◌/◌, ◌==◌, ◌^◌, ◌||◌, ◌≡◌,
}
use emac_zero.Base.Py.{ok, system_exit}
use emac_zero.Loopback.Board.{Lb, and_not, clear, pulse, set_off, wait_links}
use emac_zero.Loopback.Checks.{add_row, all_answered, all_kinds, check_row, clean_traffic}
use emac_zero.Loopback.Quiet.{
  Ends, IsKept, Leaves, cond-Leaves, pulse-Leaves, raise-Leaves, read_status-Leaves,
  run_traffic-Leaves, same-Leaves, set_off-Leaves, set_on-Leaves, sleep-Leaves, then-Leaves,
  to-Leaves, wait_links-Leaves,
}
use emac_zero.Loopback.Scripts.{
  Args, check_variants, identified, judge_drop, link_event, negative_clean, recovered, relink,
  run_test, short_clean, t_an_off, t_an_restart, t_links, t_negative, t_sfp0_laser, t_sfp1_laser,
  t_sfp1_reset, t_short, t_soak, t_traffic, traffic_if_up,
}
use emac_zero.Loopback.Status.{
  TestName, an_off, an_off_test, an_restart, an_restart_test, clear_bit, laser0_off, laser1_off,
  links, neg, negative, sfp0_laser, sfp1_laser, sfp1_reset, sfp1_rst, short, short_frames, soak,
  traffic, traffic_bits,
}
use emac_zero.Session.{Host, Verdict, World, fail, info, is_some, pass, pure, skip, ◌>>=◌, ◌>>◌}

pub add_row-Leaves : (c : ℕ) (v : Verdict) (t : TestName) → Leaves c c (add_row v t)
unfolding add_row
add_row-Leaves c v t = record { leaves = λ w q. q }

check_row-Leaves : (c : ℕ) (t : TestName) (b : Bool) → Leaves c c (check_row t b)
unfolding check_row
check_row-Leaves c t b =
    then-Leaves (add_row-Leaves c (if b then pass else fail) t) (λ u. same-Leaves c b)

check_variants-Leaves : (more c fails v : ℕ) → Leaves c c (check_variants fails more v)
unfolding check_variants
check_variants-Leaves zero c fails v = same-Leaves c tt
check_variants-Leaves (suc more) c fails v =
    then-Leaves (check_row-Leaves c negative (not (fails / 2 ^ v % 2 == 1)))
      (λ b. check_variants-Leaves more c fails (v + 1))

judge_drop-Leaves :
    (c : ℕ) (t : TestName) (expect_down : Option Bool) (b : Bool)
    → Leaves c c (judge_drop t expect_down b)
unfolding judge_drop
judge_drop-Leaves c t none b =
    cond-Leaves b (same-Leaves c true)
      (then-Leaves (add_row-Leaves c skip t) (λ u. same-Leaves c false))
judge_drop-Leaves c t (some false) b =
    then-Leaves (add_row-Leaves c info t) (λ u. same-Leaves c true)
judge_drop-Leaves c t (some true) b = then-Leaves (check_row-Leaves c t b) (λ u. same-Leaves c true)

module _ (h : Host) where
  pub clean_traffic-Leaves :
      (c : ℕ) (t : TestName) (seconds progress : ℕ)
      → IsKept c 0
      → Leaves c c (clean_traffic h t seconds progress)
  unfolding clean_traffic
  clean_traffic-Leaves c t seconds progress k =
      then-Leaves (run_traffic-Leaves h c seconds 0 progress k) (λ s.
        then-Leaves (check_row-Leaves c t (all_kinds s))
          (λ b. then-Leaves (check_row-Leaves c t (all_answered s)) (λ b'. same-Leaves c s)))

  recovered-Leaves :
      (c : ℕ) (t : TestName) (o : Option ℕ) → IsKept c 0 → Leaves c c (recovered h t o)
  unfolding recovered
  recovered-Leaves c t o k = then-Leaves (check_row-Leaves c t (is_some o)) (λ back.
      cond-Leaves (not back) (same-Leaves c false)
        (then-Leaves (clean_traffic-Leaves c t 5000 0 k) (λ s. same-Leaves c true)))

  traffic_if_up-Leaves : (c : ℕ) (o : Option ℕ) → IsKept c 0 → Leaves c c (traffic_if_up h o)
  unfolding traffic_if_up
  traffic_if_up-Leaves c o k =
      then-Leaves (recovered-Leaves c an_off_test o k) (λ up. same-Leaves c tt)

  link_event-Leaves :
      (t : TestName) (bits hold : ℕ) (expect_down : Option Bool)
      → and_not (bit_or 0 bits) bits ≡ 0
      → Leaves 0 0 (link_event h t bits hold expect_down)
  unfolding link_event clear
  link_event-Leaves t bits hold expect_down back =
      then-Leaves (set_off-Leaves h 0 traffic_bits) (λ u.
        then-Leaves (pulse-Leaves h 0 clear_bit 50) (λ u1.
          then-Leaves (set_on-Leaves h 0 bits) (λ u2. then-Leaves (sleep-Leaves h _ hold) (λ u3.
            then-Leaves (read_status-Leaves h _) (λ during.
              then-Leaves (to-Leaves back (set_off-Leaves h _ bits)) (λ u4.
                then-Leaves (wait_links-Leaves h 0 30000) (λ o.
                  then-Leaves (read_status-Leaves h 0) (λ after.
                    then-Leaves (judge_drop-Leaves 0 t expect_down _) (λ goes_on.
                      cond-Leaves (not goes_on) (same-Leaves 0 false)
                        (recovered-Leaves 0 t o (refl, refl, refl)))))))))))

  event_test-Leaves : {m : Lb Bool} → Leaves 0 0 m → Leaves 0 0 (m >>= λ b. pure tt)
  event_test-Leaves l = then-Leaves l (λ b. same-Leaves 0 tt)

  t_links-Leaves : (a : Args) → Leaves 0 0 (t_links h a)
  unfolding t_links
  t_links-Leaves a = then-Leaves (read_status-Leaves h 0) (λ s.
      then-Leaves (check_row-Leaves 0 links (identified h.in_w s)) (λ ident.
        cond-Leaves (not ident) (raise-Leaves system_exit) (
          then-Leaves (add_row-Leaves 0 info links) (λ u.
            then-Leaves (check_row-Leaves 0 links _) (λ b1.
              then-Leaves (check_row-Leaves 0 links _) (λ b2.
                then-Leaves (check_row-Leaves 0 links _) (λ b3.
                  then-Leaves (wait_links-Leaves h 0 30000)
                    (λ o. event_test-Leaves (check_row-Leaves 0 links (is_some o))))))))))

  t_traffic-Leaves : (a : Args) → Leaves 0 0 (t_traffic h a)
  unfolding t_traffic
  t_traffic-Leaves a =
      then-Leaves (clean_traffic-Leaves 0 traffic a.seconds a.interval (refl, refl, refl))
        (λ s. add_row-Leaves 0 info traffic)

  t_soak-Leaves : (a : Args) → Leaves 0 0 (t_soak h a)
  unfolding t_soak
  t_soak-Leaves a = cond-Leaves (a.soak_time == 0) (add_row-Leaves 0 skip soak) (
      then-Leaves
        (clean_traffic-Leaves 0 soak a.soak_time (max a.interval 60000) (refl, refl, refl))
        (λ s.
          cond-Leaves ((s.bad == 0) && (s.timeouts == 0) && not (s.rx_bytes == 0))
            (add_row-Leaves 0 info soak) (same-Leaves 0 tt)))

  t_negative-Leaves : (a : Args) → Leaves 0 0 (t_negative h a)
  unfolding t_negative
  t_negative-Leaves a =
      then-Leaves (run_traffic-Leaves h 0 a.neg_seconds neg 0 (refl, refl, refl)) (λ s.
        then-Leaves (check_row-Leaves 0 negative _) (λ b.
          then-Leaves (check_variants-Leaves 8 0 s.neg_fail 0)
            (λ u. event_test-Leaves (check_row-Leaves 0 negative (negative_clean s)))))

  t_short-Leaves : (a : Args) → Leaves 0 0 (t_short h a)
  unfolding t_short
  t_short-Leaves a = then-Leaves (run_traffic-Leaves h 0 5000 short 0 (refl, refl, refl)) (λ s.
      then-Leaves
        (cond-Leaves (not (s.bad == 0) || not (s.timeouts == 0))
          (add_row-Leaves 0 info short_frames) (same-Leaves 0 tt))
        (λ u. event_test-Leaves (check_row-Leaves 0 short_frames (short_clean s))))

  relink-Leaves : (o : Option ℕ) → Leaves 64 64 (relink h o)
  unfolding relink
  relink-Leaves (some t) = same-Leaves 64 (some t)
  relink-Leaves none =
      then-Leaves (pulse-Leaves h 64 an_restart 100) (λ u. wait_links-Leaves h 64 10000)

  t_an_off-Leaves : (a : Args) → Leaves 0 0 (t_an_off h a)
  unfolding t_an_off
  t_an_off-Leaves a = then-Leaves (read_status-Leaves h 0) (λ before.
      cond-Leaves (not (before.an_disabled == 0)) (add_row-Leaves 0 skip an_off_test) (
        then-Leaves (set_off-Leaves h 0 traffic_bits) (λ u.
          then-Leaves (set_on-Leaves h 0 an_off) (λ u1. then-Leaves (sleep-Leaves h 64 200) (λ u2.
            then-Leaves (read_status-Leaves h 64) (λ s.
              then-Leaves (check_row-Leaves 64 an_off_test _) (λ b.
                then-Leaves (wait_links-Leaves h 64 10000)
                  (λ o. then-Leaves (relink-Leaves o) (λ o1. an_back-Leaves o1)))))))))
    where
      an_back-Leaves :
          (o : Option ℕ)
          → Leaves 64 0 (do
            traffic_if_up h o
            set_off h an_off
            pulse h an_restart 100
            t2 ← wait_links h 15000
            traffic_if_up h t2)
      an_back-Leaves o = then-Leaves (traffic_if_up-Leaves 64 o (refl, refl, refl)) (λ u.
          then-Leaves (set_off-Leaves h 64 an_off) (λ u1.
            then-Leaves (pulse-Leaves h 0 an_restart 100) (λ u2.
              then-Leaves (wait_links-Leaves h 0 15000)
                (λ o2. traffic_if_up-Leaves 0 o2 (refl, refl, refl)))))

  run_test-Leaves : (t : TestName) (a : Args) → Leaves 0 0 (run_test h t a)
  unfolding run_test t_sfp1_laser t_sfp0_laser t_sfp1_reset t_an_restart
  run_test-Leaves links a = t_links-Leaves a
  run_test-Leaves traffic a = t_traffic-Leaves a
  run_test-Leaves negative a = t_negative-Leaves a
  run_test-Leaves short_frames a = t_short-Leaves a
  run_test-Leaves soak a = t_soak-Leaves a
  run_test-Leaves sfp1_laser a =
      event_test-Leaves (link_event-Leaves sfp1_laser laser1_off 1000 none refl)
  run_test-Leaves sfp0_laser a =
      event_test-Leaves (link_event-Leaves sfp0_laser laser0_off 1000 none refl)
  run_test-Leaves sfp1_reset a =
      event_test-Leaves (link_event-Leaves sfp1_reset sfp1_rst 200 (some true) refl)
  run_test-Leaves an_off_test a = t_an_off-Leaves a
  run_test-Leaves an_restart_test a =
      event_test-Leaves (link_event-Leaves an_restart_test an_restart 100 (some false) refl)

  -- A test that begins with the output word 0 and returns leaves the output word 0: every laser is
  -- on, no reset is held and no traffic runs.
  pub run_test-quiet :
      (t : TestName) (a : Args) (w w' : World TestName)
      → w.ctrl ≡ 0
      → run_test h t a w ≡ (ok tt, w')
      → w'.ctrl ≡ 0
  run_test-quiet t a w w' q e = subst (Ends 0) e ((run_test-Leaves t a).leaves w q)
