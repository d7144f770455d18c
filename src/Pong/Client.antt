-- ===== src/Pong/Client.antt =====
-- The game of pset6/pong61.cc's `main`: a lone ball, whose position a thread sends to the server in
-- each round, after which the ball moves. Http has the thread; how long a round takes is left out.
pub mod Wave
pub mod Bounce
pub mod Game
pub mod Stuck
mod Tests
use cs61_f18_psets.Base.{
  ℕ, zero, suc, Bool, true, false, ◌&&◌, Option, none, some, List, [], ◌∷◌, if◌then◌else◌,
}
use cs61_f18_psets.Base.Int.{ℤ, pos, ltb_ℤ}
use cs61_f18_psets.Pong.Board.{new_board}
use cs61_f18_psets.Pong.Ball.{Ball, World, ball_of, new_ball, move}

-- "bad response to "reset" RPC": the status that the server sent and the board's sides.
unfoldable pub sides_accepted : ℤ → ℤ → Bool
sides_accepted width height = ltb_ℤ (pos 0) width && ltb_ℤ (pos 0) height

-- How far `while (!ball.move()) {}` has come: the ball has moved, it has not in all the calls so far,
-- or the assertion in `move` has failed.
pub data Turn : Type 0 where
  turned : World → Turn
  spinning : World → Turn
  failed : Turn

-- The loop, for a number of calls.
unfoldable pub move_until : ℕ → World → Turn
unfolding move
move_until zero w = spinning w
move_until (suc fuel) w = elim (move w 0) [
  | none ↦ failed
  | some (w', moved) ↦ let rest = move_until fuel w' in if moved then turned w' else rest
]

-- `pong_board board(width, height); pong_ball ball(board, 0, 0, 1, 1);`
unfoldable pub first_world : ℕ → ℕ → World
unfolding new_board new_ball
first_world width height =
    new_ball (record { board = new_board width height; balls = [] }) (pos 0) (pos 0) (pos 1) (pos 1)

-- The position that the next thread sends.
abbrev pub position : World → ℤ × ℤ
position w = ((ball_of w.balls 0).x, (ball_of w.balls 0).y)

-- The world after `n` rounds, each with `fuel` calls of `move` at most; `none` when a round has not
-- ended by then.
unfoldable pub after_rounds : ℕ → ℕ → World → Option World
unfolding move_until
after_rounds fuel zero w = some w
after_rounds fuel (suc n) w = elim (move_until fuel w) [
  | turned w' ↦ after_rounds fuel n w'
  | spinning w' ↦ none
  | failed ↦ none
]
