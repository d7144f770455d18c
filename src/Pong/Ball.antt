-- ===== src/Pong/Ball.antt =====
-- `pong_ball` of pset6/pongboard.hh: its constructor and `move`. The balls live in a list beside
-- the board, so that a collision can change both balls through their pointers.
use cs61_f18_psets.Base.{
  ℕ, Bool, true, false, not, ◌&&◌, Option, none, some, List, [], ◌∷◌, ◌++◌, get_or, set, length,
  ◌==◌, if◌then◌else◌,
}
use cs61_f18_psets.Base.Int.{ℤ, pos, ◌+ℤ◌, neg, eq_ℤ}
use cs61_f18_psets.Pong.Board.{Board, CellRef, cell, read, set_ball, is_obstacle, is_sticky}

pub record Ball : Type 0 where
  pub x : ℤ
  pub y : ℤ
  pub dx : ℤ
  pub dy : ℤ

pub record World : Type 0 where
  pub board : Board
  pub balls : List Ball

-- What a dangling index would read; `IsValid` rules it out.
abbrev pub no_ball : Ball
no_ball = record { x = pos 0; y = pos 0; dx = pos 0; dy = pos 0 }

abbrev pub ball_of : List Ball → ℕ → Ball
ball_of bs i = get_or bs i no_ball

-- The cell that a ball stands on.
abbrev pub place : Board → Ball → CellRef
place b p = cell b p.x p.y

unfoldable pub new_ball : World → ℤ → ℤ → ℤ → ℤ → World
new_ball w x y dx dy = record {
  board = set_ball w.board (cell w.board x y) (some (length w.balls));
  balls = w.balls ++ record { x = x; y = y; dx = dx; dy = dy } ∷ [];
}

-- `if (cell(x + dx, y).type_ == cell_obstacle) dx = -dx;`, then the same for `dy`.
unfoldable pub reflect : Board → Ball → Ball
reflect b p = record p {
  dx = if is_obstacle (read b (cell b (p.x +ℤ p.dx) p.y)).kind then neg p.dx else p.dx;
  dy = if is_obstacle (read b (cell b p.x (p.y +ℤ p.dy))).kind then neg p.dy else p.dy;
}

-- The two halves of a collision, each through both pointers: ball `i` moves, ball `j` is hit.
unfoldable pub collide_x : List Ball → ℕ → ℕ → List Ball
collide_x bs i j =
    let this = ball_of bs i in
    let hit = ball_of bs j in
    if eq_ℤ hit.dx this.dx
    then bs
    else set (set bs j (record hit { dx = this.dx })) i (record this { dx = neg this.dx })

unfoldable pub collide_y : List Ball → ℕ → ℕ → List Ball
collide_y bs i j =
    let this = ball_of bs i in
    let hit = ball_of bs j in
    if eq_ℤ hit.dy this.dy
    then bs
    else set (set bs j (record hit { dy = this.dy })) i (record this { dy = neg this.dy })

unfoldable pub collide : List Ball → ℕ → ℕ → List Ball
collide bs i j = collide_y (collide_x bs i j) i j

-- Ball `i`, at `p`, leaves `cur` for `next`, and stops there if `next` is sticky.
unfoldable pub advance : World → ℕ → Ball → CellRef → CellRef → World
advance w i p cur next =
    let board = set_ball (set_ball w.board cur none) next (some i) in
    let stuck = is_sticky (read board next).kind in
    record {
      board = board;
      balls = set w.balls i (record {
        x = p.x +ℤ p.dx;
        y = p.y +ℤ p.dy;
        dx = if stuck then pos 0 else p.dx;
        dy = if stuck then pos 0 else p.dy;
      });
    }

abbrev pub is_ball : Option ℕ → ℕ → Bool
is_ball none i = false
is_ball (some j) i = j == i

-- The part of `move` behind "check next cell", for a ball `p` that has been reflected.
unfoldable pub enter : World → ℕ → Ball → CellRef → World × Bool
enter w i p cur =
    let next = cell w.board (p.x +ℤ p.dx) (p.y +ℤ p.dy) in
    elim ((read w.board next).ball) [
      | some j ↦ (record w { balls = collide (set w.balls i p) i j }, false)
      | none ↦
          if is_obstacle (read w.board next).kind
          then (
            record w { balls = set w.balls i (record p { dx = neg p.dx; dy = neg p.dy }) },
            false,
          )
          else (advance w i p cur next, true)
    ]

abbrev pub at_rest : Ball → Bool
at_rest p = eq_ℤ p.dx (pos 0) && eq_ℤ p.dy (pos 0)

-- `none` is a failed assertion, `cur_cell.ball_ == this`.
unfoldable pub move : World → ℕ → Option (World × Bool)
move w i =
    let p = ball_of w.balls i in
    let cur = place w.board p in
    if not (is_ball (read w.board cur).ball i)
    then none
    else if at_rest p
    then some (w, false)
    else some (enter w i (reflect w.board p) cur)
