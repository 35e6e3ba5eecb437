-- ===== src/Loopback/Names.antt =====
-- The keys of TESTS, and the loop of `main` that refuses an unknown name.
use Prim.Native.String.{String}
use text.Mathlib.Text.{◌==◌}
use emac_zero.Base.{List, Option, [], if◌then◌else◌, none, some, ◌∷◌}
use emac_zero.Base.Py.{Result, err, ok, system_exit, ◌>>=◌}
use emac_zero.Loopback.Status.{
  TestName, an_off_test, an_restart_test, links, negative, sfp0_laser, sfp1_laser, sfp1_reset,
  short_frames, soak, traffic,
}

-- TESTS, by its keys
unfoldable pub find_test : String → Option TestName
find_test name =
    if name == "links"
    then some links
    else if name == "traffic"
    then some traffic
    else if name == "negative"
    then some negative
    else if name == "short"
    then some short_frames
    else if name == "sfp1-laser"
    then some sfp1_laser
    else if name == "sfp0-laser"
    then some sfp0_laser
    else if name == "sfp1-reset"
    then some sfp1_reset
    else if name == "an-off"
    then some an_off_test
    else if name == "an-restart"
    then some an_restart_test
    else if name == "soak"
    then some soak
    else none

-- The loop that refuses an unknown name.
unfoldable pub find_tests : List String → Result (List TestName)
find_tests [] = ok []
find_tests (n ∷ ns) = elim (find_test n) [
  | none ↦ err system_exit
  | some t ↦ find_tests ns >>= λ ts. ok (t ∷ ts)
]
