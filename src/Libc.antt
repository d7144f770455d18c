-- ===== src/Libc.antt =====
-- pset4/lib.cc: the C library functions that the kernel and its processes share.
pub mod Mem
pub mod Compare
pub mod Number
pub mod Random
pub mod Format
pub mod Printf
pub mod Printer
mod Tests
