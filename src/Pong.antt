-- ===== src/Pong.antt =====
-- pset6: the pong board (pset6/pongboard.hh) and the program that runs balls on it
-- (pset6/simpong61.cc).
pub mod Board
pub mod Ball
pub mod Store
pub mod Invariant
pub mod Motion
pub mod Setup
pub mod Simulation
pub mod Settled
pub mod Placed
pub mod Fair
pub mod SetUp
pub mod Picture
pub mod Client
mod Tests
