-- ===== src/Pong/Invariant.antt =====
-- pset6/pongboard.hh: the cells and the balls agree on who stands where.
mod Steer
mod Advance
pub mod Keep
pub use Steer.{IsValid}
pub use Advance.{Entry}
