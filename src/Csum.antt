-- ===== src/Csum.antt =====
-- sim/cocotb/lib/csum.py: the packet builder and checksum reference of the offload tests.
pub mod Sum
pub mod Opts
pub mod Draw
pub mod Packet
pub mod Frame
pub mod Expect
