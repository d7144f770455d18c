-- ===== src/Pong/Client/Stuck.antt =====
-- The client of pset6/pong61.cc on a board with one column, whose sides it accepts.
use mathlib.Core.Path.{subst}
use cs61_f18_psets.Base.{
  ℕ, zero, suc, ◌<◌, ◌≡◌, refl, sym, ap, ◌∙◌, Bool, true, false, not, some, none, some-inj, set,
  length, length-set, get_or-set_self, arith,
}
use cs61_f18_psets.Base.Int.{ℤ, pos, neg, ◌+ℤ◌}
use cs61_f18_psets.Pong.Board.{Board, Cell, CellRef, off_board, cell_obstacle, cell, read}
use cs61_f18_psets.Pong.Ball.{Ball, World, no_ball, ball_of, place, enter, at_rest, move}
use cs61_f18_psets.Pong.Store.{read-edge}
use cs61_f18_psets.Pong.Invariant.{IsValid}
use cs61_f18_psets.Pong.Invariant.Keep.{Outcome, move-Outcome}
use cs61_f18_psets.Pong.Client.{spinning, move_until, first_world, sides_accepted}
use cs61_f18_psets.Pong.Client.Bounce.{
  Alone, dir, not_at_rest, turned_ball, reflect_lem, next_x, next_y,
}
use cs61_f18_psets.Pong.Client.Game.{first_world-Alone}

-- No cell lies beside a column.
beside : (b : Board) (d : Bool) (j : ℤ) → b.width ≡ 1 → cell b (pos 0 +ℤ dir d) j ≡ off_board
unfolding cell ◌+ℤ◌
beside b true j h = ground arith
beside b false j h = ground arith

neg-dir : (d : Bool) → neg (dir d) ≡ dir (not d)
unfolding neg
neg-dir true = refl
neg-dir false = refl

module _ {w : World} {y : ℕ} {up_x up_y : Bool} (a : Alone w 0 y up_x up_y)
    (narrow : w.board.width ≡ 1) where
  one_ball : 0 < length w.balls
  one_ball = omega (arith, a.count)

  abbrev there : CellRef
  there = cell w.board (pos 0 +ℤ dir (next_x a)) (pos y +ℤ dir (next_y a))

  there_edge : read w.board there ≡ record { kind = cell_obstacle; ball = none }
  there_edge =
      rw (beside w.board (next_x a) (pos y +ℤ dir (next_y a)) narrow, read-edge w.board)
        a.valid.edge

  -- The ball turns round, on its cell.
  abbrev back_ball : Ball
  back_ball = record { x = pos 0; y = pos y; dx = neg (dir (next_x a)); dy = neg (dir (next_y a)) }

  abbrev after : World
  after = record w { balls = set w.balls 0 back_ball }

  enter_lem : enter w 0 (turned_ball a) (place w.board (ball_of w.balls 0)) ≡ (after, false)
  unfolding enter
  enter_lem =
      let free : (read w.board there).ball ≡ none = ap (λ (c : Cell). c.ball) there_edge in
      let solid : (read w.board there).kind ≡ cell_obstacle =
        ap (λ (c : Cell). c.kind) there_edge in
      rw (free, solid, enter) refl

  moving : at_rest (ball_of w.balls 0) ≡ false
  moving = rw a.ball (not_at_rest up_x up_y (pos 0) (pos y))

  stays : move w 0 ≡ some (after, false)
  unfolding move
  stays = rw (a.valid.owns 0 one_ball, moving, reflect_lem a) (ap some enter_lem)

  after-IsValid : IsValid after
  after-IsValid =
      let (r, e, o) = move-Outcome w 0 a.valid one_ball in
      let same : Outcome w 0 (after, false) = subst (Outcome w 0) (some-inj (sym e ∙ stays)) o in
      same.0

  after-Alone : Alone after 0 y (not (next_x a)) (not (next_y a))
  after-Alone = record {
    valid = after-IsValid;
    count = length-set w.balls 0 back_ball ∙ a.count;
    plain = a.plain;
    in_x = a.in_x;
    in_y = a.in_y;
    ball =
        get_or-set_self w.balls 0 back_ball no_ball one_ball
        ∙ rw (neg-dir (next_x a), neg-dir (next_y a)) refl;
  }

again :
    (fuel : ℕ) (w w' : World)
    → move w 0 ≡ some (w', false)
    → move_until (suc fuel) w ≡ move_until fuel w'
unfolding move_until
again fuel w w' e = rw (e, move_until) refl

spins :
    (fuel : ℕ) (w : World) (y : ℕ) (up_x up_y : Bool)
    → Alone w 0 y up_x up_y
    → w.board.width ≡ 1
    → (w' : World) × (move_until fuel w ≡ spinning w')
      × ((ball_of w'.balls 0).x ≡ pos 0)
      × ((ball_of w'.balls 0).y ≡ pos y)
unfolding move_until
spins zero w y up_x up_y a narrow =
    (w, refl, ap (λ (b : Ball). b.x) a.ball, ap (λ (b : Ball). b.y) a.ball)
spins (suc fuel) w y up_x up_y a narrow =
    let (w', e, at_x, at_y) = spins fuel (after a narrow) y _ _ (after-Alone a narrow) narrow in
    (w', again fuel w (after a narrow) (stays a narrow) ∙ e, at_x, at_y)

-- A board with one column and any number of rows is accepted, and on it the loop of the first round never ends: after any
-- number of calls of `move`, none of which fails, the ball is still in its corner.
pub one_column_spins :
    (height fuel : ℕ)
    → 0 < height
    → (sides_accepted (pos 1) (pos height) ≡ true)
      × ((w : World) × (move_until fuel (first_world 1 height) ≡ spinning w)
          × ((ball_of w.balls 0).x ≡ pos 0)
          × ((ball_of w.balls 0).y ≡ pos 0))
unfolding sides_accepted
one_column_spins height fuel h =
    let (alone, narrow, same_height) = first_world-Alone 1 height (omega arith) h in
    (ground arith, spins fuel (first_world 1 height) 0 true true alone narrow)
