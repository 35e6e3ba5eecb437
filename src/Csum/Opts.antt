-- ===== src/Csum/Opts.antt =====
-- `ip4_opts_skip` of sim/cocotb/lib/csum.py.
pub mod Grammar
pub mod Walk
use emac_zero.Base.{
  Bool, false, get_or, if◌then◌else◌, leb, length, ltb, suc, true, zero, ℕ, ◌+◌, ◌==◌, ◌||◌,
}
use emac_zero.Base.Py.{Bytes}

abbrev pub lsrr : ℕ
lsrr = 0x83

abbrev pub ssrr : ℕ
ssrr = 0x89

-- The `while` loop from index `i`; each round moves `i` on, so `len(opts)` rounds are enough.
walk : ℕ → ℕ → Bytes → Bool
walk zero i opts = false
walk (suc fuel) i opts =
    let t = get_or opts i 0 in
    let n = get_or opts (i + 1) 0 in
    let next = walk fuel (i + 1) opts in
    let jump = walk fuel (i + n) opts in
    if ltb i (length opts)
    then (if t == 0
        then false
        else if t == 1
        then next
        else if (t == lsrr) || (t == ssrr)
        then true
        else if leb (length opts) (i + 1)
        then false
        else if ltb n 2
        then true
        else jump)
    else false

unfoldable pub ip4_opts_skip : Bytes → Bool
unfolding walk
ip4_opts_skip opts = walk (length opts) 0 opts
