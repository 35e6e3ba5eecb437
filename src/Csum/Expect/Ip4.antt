-- ===== src/Csum/Expect/Ip4.antt =====
-- `expect` of the frame that `frame` builds, for an IPv4 packet that is not cut.
use emac_zero.Base.{[], arith, length, not, refl, ℕ, ◌%◌, ◌++◌, ◌<◌, ◌==◌, ◌^◌, ◌↔◌, ◌∷◌, ◌≡◌}
use emac_zero.Base.Predicates.{All-append, IsBytes}
use emac_zero.Base.Py.{Bytes, store_slice}
use emac_zero.Csum.Draw.{Random}
use emac_zero.Csum.Expect.{judge_ip}
use emac_zero.Csum.Frame.{sent_ip_csum}
use emac_zero.Csum.Frame.Corrupt.{ip_flip_lem, sent_ip_csum-lt}
use emac_zero.Csum.Frame.Header.{CanSend, frag_word-lt, header_front}
use emac_zero.Csum.Packet.{Packet}
use emac_zero.Csum.Sum.{csum, ones_sum}
use emac_zero.Csum.Sum.Fold.{csum-lt, total}
use emac_zero.Csum.Sum.Insert.{field16, ones_sum-field_iff}

module _ (rng : Random) (p : Packet) (a o : Bytes) (can : CanSend rng p a o) (addr : IsBytes a)
    (opts : IsBytes o) where
  open rng use {State, seeded, randrange, randrange-lt}

  front_even : (t i : ℕ) → length (header_front p t i) % 2 ≡ 0
  unfolding header_front
  front_even t i = omega arith

  front-IsBytes : (t i : ℕ) → t < 2 ^ 16 → i < 2 ^ 16 → IsBytes (header_front p t i)
  unfolding header_front
  front-IsBytes t i h k = omega (arith, frag_word-lt p, can.ihl_max, can.proto)

  front_pos : (t i : ℕ) (r : Bytes) → 0 < total (header_front p t i ++ r)
  unfolding header_front total
  front_pos t i r = omega arith

  -- The header passes its own check unless it was corrupted.
  pub judge_header :
      (t i : ℕ)
      → t < 2 ^ 16
      → i < 2 ^ 16
      → let c0 = csum (header_front p t i ++ (field16 0 ++ (a ++ o))) in
        judge_ip (header_front p t i ++ (field16 (sent_ip_csum p c0) ++ (a ++ o)))
        ≡ (not p.bad_ip, c0)
  judge_header t i h k =
      let front : Bytes = header_front p t i in
      let rest : Bytes = a ++ o in
      let c0 : ℕ = csum (front ++ (field16 0 ++ rest)) in
      let rb : IsBytes rest = All-append _ a o addr opts in
      let fb : IsBytes front = front-IsBytes t i h k in
      let lt : c0 < 2 ^ 16 = csum-lt (front ++ (field16 0 ++ rest)) in
      let iff : (ones_sum (front ++ (field16 (sent_ip_csum p c0) ++ rest)) ≡ 0xFFFF)
          ↔ (sent_ip_csum p c0 % 65535 ≡ c0 % 65535) =
        ones_sum-field_iff front rest fb rb (front_even t i) (sent_ip_csum p c0)
          (sent_ip_csum-lt p c0 lt) (front_pos t i (field16 0 ++ rest)) in
      let good : (ones_sum (front ++ (field16 (sent_ip_csum p c0) ++ rest)) == 0xFFFF)
          ≡ not p.bad_ip =
        unfold sent_ip_csum in ground (arith, iff, ip_flip_lem c0 lt) in
      let same : csum
            (store_slice (front ++ (field16 (sent_ip_csum p c0) ++ rest)) 10 12 (0 ∷ 0 ∷ []))
          ≡ c0 =
        unfold header_front in refl in
      unfold judge_ip in rw (good, same) refl
