-- ===== src/Pong/Setup.antt =====
-- pset6/pongboard.hh's constructors: what the empty board and each new ball make of the invariant.
use mathlib.Core.Path.{subst}
use native.Mathlib.Decide.{dec_lt}
use cs61_f18_psets.Base.{
  some-inj, ℕ, zero, suc, ◌*◌, ◌<◌, ◌≡◌, ◌≢◌, refl, sym, ap, ◌∙◌, none, some, List, [], ◌∷◌, ◌++◌,
  get_or, length, length-append, length-replicate, replicate, arith,
}
use cs61_f18_psets.Base.Int.{ℤ}
use cs61_f18_psets.Pong.Board.{
  Board, Cell, CellRef, off_board, element, InBounds, cell, read, set_ball, new_board, empty_cell,
}
use cs61_f18_psets.Pong.Ball.{Ball, World, ball_of, place, new_ball}
use cs61_f18_psets.Pong.Store.{
  CellRef-discrete, cell-set_ball, cell-InBounds, ball-set_ball_self, ball-set_ball_ne,
  length-set_ball, width-set_ball, height-set_ball, edge-set_ball,
}
use cs61_f18_psets.Pong.Invariant.{IsValid}

abbrev pub empty_world : ℕ → ℕ → World
empty_world width height = record { board = new_board width height; balls = [] }

replicate-ball :
    (n k : ℕ) (d : Cell) → d.ball ≡ none → (get_or (replicate n empty_cell) k d).ball ≡ none
replicate-ball zero k d e = e
replicate-ball (suc n) zero d e = refl
replicate-ball (suc n) (suc k) d e = replicate-ball n k d e

pub new_board-free :
    (width height : ℕ) (r : CellRef) → (read (new_board width height) r).ball ≡ none
unfolding read new_board
new_board-free width height off_board = refl
new_board-free width height (element k) = replicate-ball (width * height) k _ refl

-- A new board with no balls is valid.
pub new_board-IsValid : (width height : ℕ) → IsValid (empty_world width height)
unfolding new_board
new_board-IsValid width height = record {
  sized = length-replicate (width * height) empty_cell;
  edge = refl;
  owns = λ i h. absurd (omega arith);
  back = λ r i b e. absurd (cc (new_board-free width height r, e));
}

get_or-append_left :
    (bs cs : List Ball) (i : ℕ) → i < length bs → ball_of (bs ++ cs) i ≡ ball_of bs i
get_or-append_left [] cs i h = absurd (omega arith)
get_or-append_left (b ∷ bs) cs zero h = refl
get_or-append_left (b ∷ bs) cs (suc i) h = get_or-append_left bs cs i (omega arith)

get_or-append_last : (bs : List Ball) (b : Ball) → ball_of (bs ++ b ∷ []) (length bs) ≡ b
get_or-append_last [] b = refl
get_or-append_last (c ∷ bs) b = get_or-append_last bs b

module _ (w : World) (v : IsValid w) (q : Ball) (on : place w.board q ≢ off_board)
    (free : (read w.board (place w.board q)).ball ≡ none) where
  abbrev spot : CellRef
  spot = place w.board q

  abbrev board : Board
  board = set_ball w.board spot (some (length w.balls))

  abbrev balls : List Ball
  balls = w.balls ++ q ∷ []

  spot-InBounds : InBounds w.board spot
  spot-InBounds = cell-InBounds w.board q.x q.y v.sized

  unmoved : (r : CellRef) → InBounds board r → InBounds w.board r
  unmoved off_board b = tt
  unmoved (element k) b = omega (arith, length-set_ball w.board spot (some (length w.balls)))

  other :
      (r : CellRef) → spot ≢ r → InBounds w.board r → (read board r).ball ≡ (read w.board r).ball
  other r ne h = ball-set_ball_ne w.board spot (some (length w.balls)) r ne h

  place_old :
      (i : ℕ)
      → i < length w.balls
      → place board (ball_of balls i) ≡ place w.board (ball_of w.balls i)
  place_old i h = rw (get_or-append_left w.balls (q ∷ []) i h) (cell-set_ball w.board spot _ _ _)

  place_last : place board (ball_of balls (length w.balls)) ≡ spot
  place_last = rw (get_or-append_last w.balls q) (cell-set_ball w.board spot _ _ _)

  owns_new :
      (i : ℕ)
      → Dec (i < length w.balls)
      → i < length balls
      → (read board (place board (ball_of balls i))).ball ≡ some i
  owns_new i (yes old) h =
      rw (place_old i old) (
        other _ (λ e. cc (free, v.owns i old, e)) (cell-InBounds w.board _ _ v.sized)
        ∙ v.owns i old)
  owns_new i (no new) h =
      let last : length w.balls ≡ i = omega (arith, length-append w.balls (q ∷ [])) in
      subst (λ j. (read board (place board (ball_of balls j))).ball ≡ some j) last
        (rw place_last (ball-set_ball_self w.board spot (some (length w.balls)) spot-InBounds))

  back_new :
      (r : CellRef) (i : ℕ)
      → Dec (spot ≡ r)
      → InBounds w.board r
      → (read board r).ball ≡ some i
      → (i < length balls) × (place board (ball_of balls i) ≡ r)
  back_new r i (yes at) b e =
      let mine = ball-set_ball_self w.board spot (some (length w.balls)) spot-InBounds in
      let last : length w.balls ≡ i = some-inj (sym mine ∙ ap (λ s. (read board s).ball) at ∙ e) in
      subst (λ j. (j < length balls) × (place board (ball_of balls j) ≡ r)) last
        (omega (arith, length-append w.balls (q ∷ [])), place_last ∙ at)
  back_new r i (no ne) b e =
      let (h, at) = v.back r i b (sym (other r ne b) ∙ e) in
      (omega (arith, length-append w.balls (q ∷ [])), place_old i h ∙ at)

  added-IsValid : IsValid (record { board = board; balls = balls })
  added-IsValid = record {
    sized =
        rw
          (
            length-set_ball w.board spot (some (length w.balls)),
            width-set_ball w.board spot (some (length w.balls)),
            height-set_ball w.board spot (some (length w.balls)),
          )
          v.sized;
    edge = edge-set_ball w.board spot _ on ∙ v.edge;
    owns = λ i h. owns_new i (dec_lt i (length w.balls)) h;
    back = λ r i b e. back_new r i (CellRef-discrete spot r) (unmoved r b) e;
  }

-- A new ball on a free cell of the board keeps the world valid.
pub new_ball-IsValid :
    (w : World) (x y dx dy : ℤ)
    → IsValid w
    → cell w.board x y ≢ off_board
    → (read w.board (cell w.board x y)).ball ≡ none
    → IsValid (new_ball w x y dx dy)
unfolding new_ball
new_ball-IsValid w x y dx dy v on free =
    added-IsValid w v (record { x = x; y = y; dx = dx; dy = dy }) on free
