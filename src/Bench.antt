-- ===== src/Bench.antt =====
-- sim/cocotb/lib/axis_driver.py, axil_master.py, txpath_bench.py, mii_bench.py, rx_loop.py,
-- mac_sys_b.py, rgmii_tb.py and bench.py: what the benches share. The drivers of an AXI-Stream input
-- and of an AXI-Lite bus, the captures of MII nibbles, the checksum of the benches, the record of their
-- checks, and the delays, clocks and edges of their signals.
pub mod Bus
pub mod Transfer
pub mod Master
pub mod Posedge
pub mod Negedge
pub mod Paced
pub mod Capture
pub mod Crc
pub mod Axil
pub mod Checks
pub mod Delay
pub mod Period
