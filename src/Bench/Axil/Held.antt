-- ===== src/Bench/Axil/Held.antt =====
-- How long the master holds its signals, and which answer it takes.
use mathlib.Core.List.{append_assoc}
use emac_zero.Base.{
  Bool, List, [], ap, arith, false, refl, replicate, some, suc, true, zero, ℕ, ◌++◌, ◌+◌, ◌∙◌, ◌∷◌,
  ◌≡◌, ◌≤◌,
}
use emac_zero.Bench.Axil.{
  Axil, AxilBus, axil_edge, axil_read, axil_write, read_clear, read_end, read_drive, wait_valid,
  write_clear, write_drive, write_end,
}
use emac_zero.Bench.Bus.{Waits, at_once, later}

module _ {ℓ} {D : Type ℓ} (valid : ℕ → Bool) (sample : ℕ → D) where
  wait_later :
      (fuel : ℕ) (bus : AxilBus)
      → valid bus.time ≡ false
      → wait_valid valid sample (suc fuel) bus ≡ wait_valid valid sample fuel (axil_edge bus)
  unfolding wait_valid
  wait_later fuel bus r = rw r refl

  wait_now :
      (fuel : ℕ) (bus : AxilBus)
      → valid bus.time ≡ true
      → wait_valid valid sample (suc fuel) bus ≡ some (sample bus.time, axil_edge bus)
  unfolding wait_valid
  wait_now fuel bus r = rw r refl

  wait_valid-Waits :
      (fuel : ℕ) (now : Axil) (trace : List Axil) {t d : ℕ}
      → Waits valid t d
      → suc d ≤ fuel
      → wait_valid valid sample fuel (record { now = now; time = t; trace = trace })
        ≡ some (
          sample (t + d),
          record { now = now; time = suc (t + d); trace = trace ++ replicate (suc d) now },
        )
  wait_valid-Waits zero now trace w h = absurd (omega arith)
  wait_valid-Waits (suc fuel) now trace (at_once {t = t} y) h =
      let z : t + 0 ≡ t = omega arith in
      wait_now fuel (record { now = now; time = t; trace = trace }) y ∙ rw z refl
  wait_valid-Waits (suc fuel) now trace (later {t = t} {d = d} n w) h =
      let s : suc t + d ≡ t + suc d = omega arith in
      wait_later fuel (record { now = now; time = t; trace = trace }) n
      ∙ wait_valid-Waits fuel now (trace ++ now ∷ []) w (omega arith)
      ∙ rw (s, append_assoc trace (now ∷ []) (replicate (suc d) now)) refl

-- Where bvalid is high first at the edge after `d` others, `write` ends: address, data, strobes and
-- bready are held as they were given at those edges and at this one and at no other, and the valids
-- and bready are low after it while all else stays.
pub axil_write-Waits :
    (bvalid : ℕ → Bool) (fuel addr value strb : ℕ) (bus : AxilBus) {d : ℕ}
    → Waits bvalid bus.time d
    → suc d ≤ fuel
    → axil_write bvalid fuel addr value strb bus
      ≡ some (record {
        now = write_clear (write_drive addr value strb bus.now);
        time = suc (bus.time + d);
        trace = bus.trace ++ replicate (suc d) (write_drive addr value strb bus.now);
      })
unfolding axil_write write_end
axil_write-Waits bvalid fuel addr value strb bus w h =
    ap write_end
      (wait_valid-Waits bvalid (λ t. 0) fuel (write_drive addr value strb bus.now) bus.trace w h)

-- Where rvalid is high first at the edge after `d` others, `read` returns what rdata is at this edge:
-- the address and rready are held at those edges and at this one, and arvalid and rready are low
-- after it while all else stays.
pub axil_read-Waits {ℓ} :
    {D : Type ℓ} (rvalid : ℕ → Bool) (rdata : ℕ → D) (fuel addr : ℕ) (bus : AxilBus) {d : ℕ}
    → Waits rvalid bus.time d
    → suc d ≤ fuel
    → axil_read rvalid rdata fuel addr bus
      ≡ some (
        rdata (bus.time + d),
        record {
          now = read_clear (read_drive addr bus.now);
          time = suc (bus.time + d);
          trace = bus.trace ++ replicate (suc d) (read_drive addr bus.now);
        },
      )
unfolding axil_read read_end
axil_read-Waits rvalid rdata fuel addr bus w h =
    ap read_end (wait_valid-Waits rvalid rdata fuel (read_drive addr bus.now) bus.trace w h)
