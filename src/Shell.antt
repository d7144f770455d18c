-- ===== src/Shell.antt =====
-- pset5: the shell's tokenizer (pset5/helpers.cc) and the command line that pset5/sh61.cc builds.
pub mod Token
pub mod Progress
pub mod Quote
mod Tests
