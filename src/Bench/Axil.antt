-- ===== src/Bench/Axil.antt =====
-- sim/cocotb/lib/axil_master.py: AxiLiteMaster. The slave is a parameter: what bvalid, rvalid and
-- rdata are before each rising edge, bvalid and rvalid as the test for a known 1.
pub mod Held
use emac_zero.Base.{
  Bool, List, Option, [], false, if◌then◌else◌, none, some, suc, true, zero, ℕ, ◌++◌, ◌∷◌,
}

-- The outputs of the master.
pub record Axil : Type 0 where
  pub awaddr : ℕ
  pub awvalid : Bool
  pub wdata : ℕ
  pub wstrb : ℕ
  pub wvalid : Bool
  pub bready : Bool
  pub araddr : ℕ
  pub arvalid : Bool
  pub rready : Bool

-- `idle`, at a reset.
abbrev pub axil_idle : Axil
axil_idle = record {
  awaddr = 0;
  awvalid = false;
  wdata = 0;
  wstrb = 0;
  wvalid = false;
  bready = false;
  araddr = 0;
  arvalid = false;
  rready = false;
}

-- The outputs, the number of the rising edges passed, and the outputs at each of them.
pub record AxilBus : Type 0 where
  pub now : Axil
  pub time : ℕ
  pub trace : List Axil

-- await RisingEdge(clk)
abbrev pub axil_edge : AxilBus → AxilBus
axil_edge bus = record { now = bus.now; time = suc bus.time; trace = bus.trace ++ bus.now ∷ [] }

-- `_wait_valid`; none where the fuel ends first.
unfoldable pub wait_valid {ℓ} :
    {D : Type ℓ} → (ℕ → Bool) → (ℕ → D) → ℕ → AxilBus → Option (D × AxilBus)
wait_valid valid sample zero bus = none
wait_valid valid sample (suc fuel) bus =
    let rest = wait_valid valid sample fuel (axil_edge bus) in
    if valid bus.time then some (sample bus.time, axil_edge bus) else rest

abbrev pub write_drive : ℕ → ℕ → ℕ → Axil → Axil
write_drive addr value strb o = record o {
  awaddr = addr;
  awvalid = true;
  wdata = value;
  wstrb = strb;
  wvalid = true;
  bready = true;
}

abbrev pub write_clear : Axil → Axil
write_clear o = record o { awvalid = false; wvalid = false; bready = false }

abbrev pub read_drive : ℕ → Axil → Axil
read_drive addr o = record o { araddr = addr; arvalid = true; rready = true }

abbrev pub read_clear : Axil → Axil
read_clear o = record o { arvalid = false; rready = false }

-- What follows the wait of `write` and of `read`, at the next falling edge.
unfoldable pub write_end : Option (ℕ × AxilBus) → Option AxilBus
write_end none = none
write_end (some (answer, bus)) = some (record bus { now = write_clear bus.now })

unfoldable pub read_end {ℓ} : {D : Type ℓ} → Option (D × AxilBus) → Option (D × AxilBus)
read_end none = none
read_end (some (value, bus)) = some (value, record bus { now = read_clear bus.now })

-- `write`, from its first falling edge to its last one; its wait samples nothing.
unfoldable pub axil_write : (ℕ → Bool) → ℕ → ℕ → ℕ → ℕ → AxilBus → Option AxilBus
axil_write bvalid fuel addr value strb bus =
    let driven = record bus { now = write_drive addr value strb bus.now } in
    write_end (wait_valid bvalid (λ t. 0) fuel driven)

-- `read`, from its first falling edge to its last one; rdata as `_sample` gives it.
unfoldable pub axil_read {ℓ} :
    {D : Type ℓ} → (ℕ → Bool) → (ℕ → D) → ℕ → ℕ → AxilBus → Option (D × AxilBus)
axil_read rvalid rdata fuel addr bus =
    read_end (wait_valid rvalid rdata fuel (record bus { now = read_drive addr bus.now }))
