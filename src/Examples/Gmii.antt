-- ===== src/Examples/Gmii.antt =====
-- Concrete inputs for the theorems on the GMII loopback script.
use emac_zero.Base.{
  List, [], arith, false, refl, replicate, true, ℕ, ◌*◌, ◌^◌, ◌++◌, ◌≡◌, ◌≢◌, ◌∷◌, ◌↔◌,
}
use emac_zero.Base.Predicates.{All}
use emac_zero.Base.Py.{err, ok, runtime_error, system_exit}
use emac_zero.Base.Text.{Line, codes}
use emac_zero.GmiiTest.{
  Cli, CliWorld, Command, GmiiStatus, Outcome, decode_gmii, eio_read, eio_write, fcapz, fcapz_loop,
  by_outcome, gmii_checks, gmii_ready, goes_on_with, last_hex, main_gmii, noted, printed, read_gmii,
}
use emac_zero.Counters.{bit_field}
use emac_zero.GmiiTest.Answer.{main_gmii-Answers}
use emac_zero.GmiiTest.Ending.{main_gmii-Ends}
use emac_zero.GmiiTest.Refusal.{OnlyReads, main_gmii-Refuses}
use emac_zero.SerialMonitor.Hex.{hex_digit, hex_digits, hex_number, parse_hex}
use emac_zero.SerialMonitor.Ports.{lower, starts_with}

-- An output whose last line is a status: the marker, init_done and mmcm_locked, and counters of 0.
abbrev ready_lines : List Line
ready_lines = codes "fcapz" ∷ (codes "B0A5" ++ replicate 76 48) ∷ []

-- A status without the marker.
abbrev blank_lines : List Line
blank_lines = codes "0" ∷ []

abbrev answer : List Line → Command → Outcome
answer lines eio_read = printed lines
answer lines (eio_write v) = printed []

abbrev ready_board : Cli
ready_board = record { outcome = λ n c. answer ready_lines c; lag = λ n. 40 }

abbrev blank_board : Cli
blank_board = record { outcome = λ n c. answer blank_lines c; lag = λ n. 40 }

abbrev at_start : CliWorld
at_start = record { log = []; written = []; runs = 0; now = 0 }

abbrev blank_end : CliWorld
blank_end = record { log = eio_read ∷ []; written = []; runs = 1; now = 40 }

abbrev ready_word : ℕ
ready_word = 0xB0A5 * 2 ^ 304

ready_word-printed : last_hex ready_lines ≡ ok ready_word
unfolding last_hex parse_hex hex_number hex_digits hex_digit starts_with lower
ready_word-printed = refl

ready_word-ready : gmii_ready (decode_gmii ready_word) ≡ true
unfolding gmii_ready decode_gmii bit_field
ready_word-ready = refl

blank_read : read_gmii blank_board at_start ≡ (ok (decode_gmii 0), blank_end)
unfolding read_gmii fcapz fcapz_loop by_outcome goes_on_with noted last_hex parse_hex hex_number
    hex_digits hex_digit starts_with lower
blank_read = refl

blank_refused : gmii_ready (decode_gmii 0) ≡ false
unfolding gmii_ready decode_gmii bit_field
blank_refused = refl

main_gmii-Refuses_example :
    ((main_gmii blank_board 30000 10000 at_start).0 ≡ err system_exit)
    × OnlyReads at_start (main_gmii blank_board 30000 10000 at_start).1
main_gmii-Refuses_example =
    main_gmii-Refuses blank_board 30000 10000 at_start blank_end (decode_gmii 0) blank_read
      blank_refused

main_gmii-Ends_example : (main_gmii ready_board 30000 10000 at_start).0 ≢ err runtime_error
main_gmii-Ends_example = main_gmii-Ends ready_board 30000 10000 at_start (omega arith)

main_gmii-Answers_example :
    (exit_code : ℕ) × (w2 : CliWorld) × (main_gmii ready_board 30000 10000 at_start
      ≡ (ok exit_code, w2))
    × ((s : GmiiStatus) × (w1 : CliWorld) × (read_gmii ready_board w1 ≡ (ok s, w2))
        × (w1.written ≡ 0 ∷ 1 ∷ 2 ∷ [])
        × ((exit_code ≡ 0) ↔ All (λ b. b ≡ true) (gmii_checks s)))
main_gmii-Answers_example =
    main_gmii-Answers ready_board
      (λ n. (ready_lines, ready_word, refl, ready_word-printed, ready_word-ready))
      (λ n v. ([], refl)) 30000 10000 at_start (omega arith)
