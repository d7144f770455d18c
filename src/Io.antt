-- ===== src/Io.antt =====
-- pset3: the I/O library (pset3/io61.cc) and the programs that use it.
pub mod Os
pub mod File
pub mod Copy
pub mod Shuffle
pub mod Files
pub mod Steps
pub mod Copied
pub mod Reversed
pub mod Placed
pub mod Reordered
mod Tests
