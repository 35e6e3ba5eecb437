-- ===== src/Examples/Loopback.antt =====
-- The theorems on the SFP loopback tests, at a board that answers every request.
use Prim.Native.String.{String}
use emac_zero.Base.{bit_or, ◌+◌, List, [], inl, none, refl, true, ℕ, ◌∷◌, ◌≡◌, ◌≤◌}
use emac_zero.Base.Py.{ok}
use emac_zero.Counters.{bit_field}
use emac_zero.Loopback.Board.{
  clear, pulse, read_status, run_traffic, set_off, set_on, show_progress, traffic_loop, wait_links,
  wait_loop, write_word,
}
use emac_zero.Loopback.Checks.{add_row, all_answered, all_kinds, check_row, clean_traffic}
use emac_zero.Loopback.Idle.{run_test-quiet}
use emac_zero.Loopback.Names.{find_test, find_tests}
use emac_zero.Loopback.Outcome.{WasFound, main_run-Passed}
use emac_zero.Loopback.Passed.{IsClean}
use emac_zero.Loopback.Program.{
  after_connect, after_names, close_board, conclude, count_rows, exit_code, get_count, main_run,
  new_world, remove_links, run_session, run_tests, same_verdict, session, set_count,
}
use emac_zero.Loopback.Safe.{main_run-Parks, main_run-Refuses}
use emac_zero.Loopback.Scripts.{
  Args, clock_good, identified, judge_drop, link_event, recovered, run_test, t_links, t_sfp0_laser,
  t_sfp1_laser, t_traffic,
}
use emac_zero.Loopback.Status.{
  Status, run_bit, traffic_bits, TestName, decode_status, links, links_up, neg, ok_valid,
  sfp0_laser, sfp1_laser, traffic,
}
use emac_zero.Loopback.Waits.{wait_links-Waited}
use emac_zero.Loopback.Window.{IsSilent, run_traffic-Lasts}
use emac_zero.Session.{Host, World, fail, ◌>>=◌}

-- A word of the loopback build: both links are up, three requests were sent and answered.
abbrev good_word : ℕ
good_word =
    67980745177297633892177331930334819543519626181828620618238494545861308736111597398045965139614163487887580198570188278745977887957267871380626716449136170890398967259753522378309635

abbrev board : ℕ → Host
board word = record {
  connect = ok tt;
  inputs = λ k. ok word;
  accepts = λ k. ok tt;
  lag = λ k. 1;
  in_w = 608;
}

abbrev brief : Args
brief = record { seconds = 2; neg_seconds = 0; soak_time = 0; interval = 0 }

abbrev asked : List String
asked = "traffic" ∷ "sfp1-laser" ∷ []

abbrev found : List TestName
found = traffic ∷ sfp1_laser ∷ []

asked-found : find_tests asked ≡ ok found
unfolding find_tests find_test
asked-found = refl

main_run-Parks_example :
    let w = (main_run (board good_word) asked brief).1 in
    ((words : List ℕ) × (w.written ≡ 0 ∷ words)) × (w.ctrl ≡ 0) × (w.closed ≡ true)
main_run-Parks_example = main_run-Parks (board good_word) asked found brief asked-found refl

main_run-Refuses_example :
    let w = (main_run (board 0x107) asked brief).1 in
    (w.written ≡ 0 ∷ []) × (w.rows ≡ (fail, links) ∷ [])
unfolding identified decode_status bit_field
main_run-Refuses_example =
    main_run-Refuses (board 0x107) asked found brief 0x107 asked-found refl refl refl

abbrev ended : World TestName
ended = (main_run (board good_word) asked brief).1

passed : main_run (board good_word) asked brief ≡ (ok 0, ended)
unfolding main_run after_names find_tests find_test run_session after_connect conclude session
    close_board write_word run_tests ◌>>=◌ run_test t_links read_status check_row add_row bit_field
    clear pulse run_traffic set_off set_on show_progress traffic_loop wait_links wait_loop all_kinds
    all_answered clean_traffic count_rows exit_code get_count remove_links same_verdict set_count
    clock_good identified judge_drop link_event recovered t_sfp1_laser t_traffic decode_status
    links_up ok_valid
passed = refl

main_run-Passed_example : WasFound (board good_word) × ((s : Status) × IsClean (board good_word) s)
main_run-Passed_example =
    main_run-Passed (board good_word) asked found brief ended asked-found refl (inl refl) passed

waited : wait_links (board 0) 150 new_world ≡ (ok none, (wait_links (board 0) 150 new_world).1)
unfolding wait_links wait_loop ◌>>=◌ read_status links_up decode_status bit_field
waited = refl

wait_links-Waited_example : 150 ≤ (wait_links (board 0) 150 new_world).1.now
wait_links-Waited_example =
    wait_links-Waited (board 0) 150 new_world (wait_links (board 0) 150 new_world).1 none waited

abbrev after_window : World TestName
after_window = (run_traffic (board good_word) 5 neg 2 new_world).1

window :
    run_traffic (board good_word) 5 neg 2 new_world ≡ (ok (decode_status good_word), after_window)
unfolding run_traffic set_off set_on write_word clear pulse ◌>>=◌ traffic_loop show_progress
    read_status
window = refl

run_traffic-Lasts_example :
    (first : World TestName) × (cleared : World TestName) × (on : World TestName) × (end : World
      TestName)
    × (off : World TestName) × (drained : World TestName) × (set_off
          (board good_word)
          traffic_bits
          new_world
        ≡ (ok tt, first))
    × (clear (board good_word) first ≡ (ok tt, cleared))
    × (set_on (board good_word) (bit_or run_bit neg) cleared ≡ (ok tt, on))
    × (on.now + 5 ≤ end.now)
    × IsSilent on end
    × (set_off (board good_word) (bit_or run_bit neg) end ≡ (ok tt, off))
    × (off.now + 300 ≤ drained.now)
    × IsSilent off drained
    × (read_status (board good_word) drained ≡ (ok (decode_status good_word), after_window))
run_traffic-Lasts_example =
    run_traffic-Lasts (board good_word) 5 neg 2 new_world after_window (decode_status good_word)
      window

abbrev after_event : World TestName
after_event = (run_test (board good_word) sfp0_laser brief new_world).1

event : run_test (board good_word) sfp0_laser brief new_world ≡ (ok tt, after_event)
unfolding run_test t_sfp0_laser link_event judge_drop add_row run_traffic set_off set_on write_word
    clear pulse ◌>>=◌ read_status wait_links wait_loop links_up decode_status bit_field
event = refl

run_test-quiet_example : after_event.ctrl ≡ 0
run_test-quiet_example =
    run_test-quiet (board good_word) sfp0_laser brief new_world after_event refl event
