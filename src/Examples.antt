-- ===== src/Examples.antt =====
-- Concrete inputs for the theorems of the other modules.
pub mod Checksums
pub mod Wire
pub mod Loopback
pub mod Linux
pub mod Pauses
pub mod Monitor
pub mod Benches
pub mod Gmii
pub mod Clocks
