-- ===== src/Examples/Checksums.antt =====
-- The theorems on sim/cocotb/lib/csum.py at concrete packets. The generator of these examples always
-- draws the least value.
use emac_zero.Base.{
  Bool, [], arith, false, none, not, refl, some, true, ◌%◌, ◌&&◌, ◌++◌, ◌==◌, ◌||◌, ◌↔◌, ◌∷◌, ◌≡◌,
}
use emac_zero.Base.Py.{Bytes, ok, to_bytes2}
use emac_zero.Csum.Draw.{Random, rand_bytes}
use emac_zero.Csum.Expect.{Expect, expect}
use emac_zero.Csum.Expect.Own.{expect-frame}
use emac_zero.Csum.Frame.{frame}
use emac_zero.Csum.Frame.Header.{CanSend}
use emac_zero.Csum.Opts.{ip4_opts_skip}
use emac_zero.Csum.Opts.Grammar.{Skip}
use emac_zero.Csum.Opts.Walk.{ip4_opts_skip_iff}
use emac_zero.Csum.Packet.{Packet, build, l4_applies, l4_csum_off, options, udp, udp_cov}
use emac_zero.Csum.Packet.Built.{IsBuilt, build-IsBuilt}
use emac_zero.Csum.Sum.{csum, ones_sum}
use emac_zero.Csum.Sum.Fold.{total}
use emac_zero.Csum.Sum.Insert.{field16, ones_sum-csum, ones_sum-field_iff}

abbrev pub least : Random
least = record {
  State = Unit {0};
  seeded = λ n. tt;
  randrange = λ n s. (0, s);
  randint = λ a b s. (a, s);
  choices = λ ws s. (0, s);
  randrange-lt = λ n s h. h;
  randint-ge = λ a b s h. omega arith;
  randint-le = λ a b s h. h;
}

-- A UDP packet of ten bytes without options, before and after `build`.
abbrev fresh : Packet
fresh = record {
  vlan = 0;
  family = 4;
  proto = 17;
  l4_len = 10;
  ihl = 5;
  mf = false;
  frag_off = 0;
  trailer = [];
  bad_ip = false;
  bad_l4 = true;
  udp_zero = false;
  udp_len = none;
  opts = some [];
  truncate = 0;
  seed = 1;
  l4 = [];
  addr_bytes = none;
}

abbrev addr8 : Bytes
addr8 = 0 ∷ 0 ∷ 0 ∷ 0 ∷ 0 ∷ 0 ∷ 0 ∷ 0 ∷ []

abbrev ready : Packet
ready = record fresh { l4 = 0 ∷ 0 ∷ 0 ∷ 0 ∷ 0 ∷ 10 ∷ 0 ∷ 0 ∷ 0 ∷ 0 ∷ []; addr_bytes = some addr8 }

fresh_builds : build least fresh ≡ ok ready
unfolding build to_bytes2 l4_csum_off rand_bytes
fresh_builds = refl

ready-IsBuilt : IsBuilt ready
ready-IsBuilt = build-IsBuilt least fresh ready fresh_builds

ready-CanSend : CanSend least ready addr8 []
unfolding options
ready-CanSend = record {
  ihl_min = omega arith;
  ihl_max = omega arith;
  proto = omega arith;
  addr = refl;
  length_addr = refl;
  opts = refl;
  length_opts = refl;
}

expect-frame_example :
    (f : Bytes) × (e : Expect) × (applies : Bool) × (frame least ready ≡ ok (ready, f))
    × (expect least ready f ≡ ok e)
    × (e.done ≡ true)
    × (e.ip4 ≡ true)
    × (e.ip_good ≡ not ready.bad_ip)
    × (l4_applies least ready (udp_cov ready) ≡ ok applies)
    × (e.l4_ok ≡ applies)
    × (e.l4_good
        ≡ (applies && (not ready.bad_l4 || ((ready.proto == udp) && (e.l4_csum == 0x0101)))))
expect-frame_example =
    expect-frame least ready addr8 [] ready-IsBuilt ready-CanSend (omega arith) tt refl refl
      (omega arith) (omega arith)

build-IsBuilt_example : IsBuilt ready
build-IsBuilt_example = build-IsBuilt least fresh ready fresh_builds

ip4_opts_skip_iff_example :
    (ip4_opts_skip (1 ∷ 7 ∷ 3 ∷ 0 ∷ 0x83 ∷ []) ≡ true) ↔ Skip (1 ∷ 7 ∷ 3 ∷ 0 ∷ 0x83 ∷ [])
ip4_opts_skip_iff_example = ip4_opts_skip_iff (1 ∷ 7 ∷ 3 ∷ 0 ∷ 0x83 ∷ [])

ones_sum-field_iff_example :
    (ones_sum ((1 ∷ 2 ∷ []) ++ (field16 5 ++ (3 ∷ []))) ≡ 0xFFFF)
    ↔ (5 % 65535 ≡ csum ((1 ∷ 2 ∷ []) ++ (field16 0 ++ (3 ∷ []))) % 65535)
ones_sum-field_iff_example =
    ones_sum-field_iff (1 ∷ 2 ∷ []) (3 ∷ []) (omega arith) (omega arith) refl 5 (omega arith)
      (unfold total in omega arith)

ones_sum-csum_example :
    ones_sum
      ((1 ∷ 2 ∷ []) ++ (field16 (csum ((1 ∷ 2 ∷ []) ++ (field16 0 ++ (3 ∷ [])))) ++ (3 ∷ [])))
    ≡ 0xFFFF
ones_sum-csum_example = ones_sum-csum (1 ∷ 2 ∷ []) (3 ∷ []) (omega arith) (omega arith) refl
