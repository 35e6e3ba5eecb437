-- ===== src/Loopback/Status.antt =====
-- The fields of the EIO input, and the bits of its output.
use emac_zero.Base.{Bool, bit_or, not, ℕ, ◌%◌, ◌&&◌, ◌+◌, ◌==◌}
use emac_zero.Counters.{bit_field}

pub record Status : Type 0 where
  pub tx_count : ℕ
  pub ok_arp : ℕ
  pub ok_icmp : ℕ
  pub ok_udp : ℕ
  pub bad : ℕ
  pub timeouts : ℕ
  pub max_rtt : ℕ
  pub first_reason : ℕ
  pub first_kind : ℕ
  pub first_idx : ℕ
  pub first_got : ℕ
  pub first_exp : ℕ
  pub first_seq : ℕ
  pub init_done : ℕ
  pub run : ℕ
  pub ok_neg : ℕ
  pub neg_fail : ℕ
  pub rx_bytes : ℕ
  pub neg_replies : ℕ
  pub sfp0_status : ℕ
  pub sfp1_status : ℕ
  pub sfp0_downs : ℕ
  pub sfp1_downs : ℕ
  pub demo_rx_frames : ℕ
  pub demo_tx_frames : ℕ
  pub tst_tx_frames : ℕ
  pub tst_rx_frames : ℕ
  pub demo_rx_errs : ℕ
  pub tst_rx_errs : ℕ
  pub userclk2_count : ℕ
  pub sfp0_resetdone : ℕ
  pub sfp1_resetdone : ℕ
  pub refclk_ready : ℕ
  pub an_disabled : ℕ
  pub refclk_si5328 : ℕ
  pub mac_running : ℕ
  pub layout : ℕ
  pub marker : ℕ

-- FIELDS
unfoldable pub decode_status : ℕ → Status
decode_status raw = record {
  tx_count = bit_field raw 0 32;
  ok_arp = bit_field raw 32 32;
  ok_icmp = bit_field raw 64 32;
  ok_udp = bit_field raw 96 32;
  bad = bit_field raw 128 32;
  timeouts = bit_field raw 160 32;
  max_rtt = bit_field raw 192 16;
  first_reason = bit_field raw 208 4;
  first_kind = bit_field raw 212 2;
  first_idx = bit_field raw 214 16;
  first_got = bit_field raw 230 8;
  first_exp = bit_field raw 238 8;
  first_seq = bit_field raw 246 16;
  init_done = bit_field raw 262 1;
  run = bit_field raw 263 1;
  ok_neg = bit_field raw 264 32;
  neg_fail = bit_field raw 296 8;
  rx_bytes = bit_field raw 304 48;
  neg_replies = bit_field raw 352 32;
  sfp0_status = bit_field raw 384 16;
  sfp1_status = bit_field raw 400 16;
  sfp0_downs = bit_field raw 416 16;
  sfp1_downs = bit_field raw 432 16;
  demo_rx_frames = bit_field raw 448 16;
  demo_tx_frames = bit_field raw 464 16;
  tst_tx_frames = bit_field raw 480 16;
  tst_rx_frames = bit_field raw 496 16;
  demo_rx_errs = bit_field raw 512 16;
  tst_rx_errs = bit_field raw 528 16;
  userclk2_count = bit_field raw 544 24;
  sfp0_resetdone = bit_field raw 576 1;
  sfp1_resetdone = bit_field raw 577 1;
  refclk_ready = bit_field raw 578 1;
  an_disabled = bit_field raw 579 1;
  refclk_si5328 = bit_field raw 580 1;
  mac_running = bit_field raw 581 1;
  layout = bit_field raw 592 4;
  marker = bit_field raw 596 12;
}

abbrev pub marker : ℕ
marker = 0x106

abbrev pub layout : ℕ
layout = 2

abbrev pub in_w : ℕ
in_w = 608

abbrev pub run_bit : ℕ
run_bit = 1

abbrev pub clear_bit : ℕ
clear_bit = 2

abbrev pub neg : ℕ
neg = 4

abbrev pub short : ℕ
short = 8

abbrev pub laser1_off : ℕ
laser1_off = 16

abbrev pub sfp1_rst : ℕ
sfp1_rst = 32

abbrev pub an_off : ℕ
an_off = 64

abbrev pub an_restart : ℕ
an_restart = 128

abbrev pub laser0_off : ℕ
laser0_off = 256

-- RUN | NEG | SHORT
abbrev pub traffic_bits : ℕ
traffic_bits = bit_or (bit_or run_bit neg) short

-- The keys of TESTS.
pub data TestName : Type 0 where
  links traffic negative short_frames sfp1_laser sfp0_laser sfp1_reset an_off_test an_restart_test
        soak :
      TestName

-- `links_up(s)` of a status
unfoldable pub links_up : Status → Bool
links_up s =
    (s.sfp0_status % 2 == 1)
    && (s.sfp1_status % 2 == 1)
    && not (s.mac_running == 0)
    && not (s.init_done == 0)

unfoldable pub ok_valid : Status → ℕ
ok_valid s = s.ok_arp + s.ok_icmp + s.ok_udp
