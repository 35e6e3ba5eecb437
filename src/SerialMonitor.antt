-- ===== src/SerialMonitor.antt =====
-- fpga/arty_a7/scripts/serial_monitor.py: the choice of the port, the lines of the board, and the
-- verdict. The serial port, ping and the neighbor table are parameters: what they give.
pub mod Ports
pub mod Report
pub mod Hex
pub mod Judge
pub mod Reading
pub mod Passes
