-- ===== src/Kernel.antt =====
-- pset4: the WeensyOS kernel.
pub mod Machine
pub mod Memory
pub mod Schedule
pub mod Trap
pub mod Boot
pub mod PageTable
pub mod Loader
pub mod Setup
pub mod Symbols
pub mod Keyboard
mod Tests
