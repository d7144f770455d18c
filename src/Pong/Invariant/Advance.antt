-- ===== src/Pong/Invariant/Advance.antt =====
-- pset6/pongboard.hh: the branch of `move` in which the ball enters the next cell.
use cs61_f18_psets.Base.{
  some-inj, ℕ, ◌*◌, ◌<◌, ◌≡◌, ◌≢◌, sym, ap, ◌∙◌, none, some, set, length, length-set,
  get_or-set_self, get_or-set_ne, arith,
}
use mathlib.Core.Path.{subst}
use native.Mathlib.Decide.{ℕ_discrete}
use cs61_f18_psets.Base.Int.{ℤ, ◌+ℤ◌}
use cs61_f18_psets.Pong.Board.{
  Board, Cell, CellRef, off_board, element, InBounds, cell, read, set_ball, cell_obstacle,
}
use cs61_f18_psets.Pong.Ball.{Ball, World, ball_of, no_ball, place}
use cs61_f18_psets.Pong.Store.{
  edge-set_ball, read-edge, CellRef-discrete, cell-set_ball, cell-InBounds, kind-set_ball,
  ball-set_ball_self, ball-set_ball_ne, InBounds-set_ball, length-set_ball, width-set_ball,
  height-set_ball,
}
use cs61_f18_psets.Pong.Invariant.Steer.{IsValid}

pub record Entry (w : World) (i : ℕ) (p : Ball) (cur next : CellRef) : Type 0 where
  pub valid : IsValid w
  pub known : i < length w.balls
  pub here : place w.board (ball_of w.balls i) ≡ cur
  pub there : cell w.board (p.x +ℤ p.dx) (p.y +ℤ p.dy) ≡ next
  pub free : (read w.board next).ball ≡ none
  pub clear : (read w.board next).kind ≢ cell_obstacle

module _ {w : World} {i : ℕ} {p : Ball} {cur next : CellRef} (en : Entry w i p cur next) where
  cur-holds : (read w.board cur).ball ≡ some i
  cur-holds = subst (λ r. (read w.board r).ball ≡ some i) en.here (en.valid.owns i en.known)

  cur-ne-next : cur ≢ next
  cur-ne-next e = cc (ap (λ r. (read w.board r).ball) e, cur-holds, en.free)

  cur-InBounds : InBounds w.board cur
  cur-InBounds = subst (InBounds w.board) en.here (cell-InBounds w.board _ _ en.valid.sized)

  next-InBounds : InBounds w.board next
  next-InBounds = subst (InBounds w.board) en.there (cell-InBounds w.board _ _ en.valid.sized)

  -- The board after the two writes.
  abbrev pub moved : Board
  moved = set_ball (set_ball w.board cur none) next (some i)

  moved-next : (read moved next).ball ≡ some i
  moved-next =
      ball-set_ball_self (set_ball w.board cur none) next (some i)
        (InBounds-set_ball w.board cur none next next-InBounds)

  moved-cur : (read moved cur).ball ≡ none
  moved-cur =
      ball-set_ball_ne (set_ball w.board cur none) next (some i) cur (λ e. cur-ne-next (sym e))
        (InBounds-set_ball w.board cur none cur cur-InBounds)
      ∙ ball-set_ball_self w.board cur none cur-InBounds

  moved-other :
      (r : CellRef)
      → r ≢ cur
      → r ≢ next
      → InBounds w.board r
      → (read moved r).ball ≡ (read w.board r).ball
  moved-other r nc nn h =
      ball-set_ball_ne (set_ball w.board cur none) next (some i) r (λ e. nn (sym e))
        (InBounds-set_ball w.board cur none r h)
      ∙ ball-set_ball_ne w.board cur none r (λ e. nc (sym e)) h

  moved-cell : (x y : ℤ) → cell moved x y ≡ cell w.board x y
  moved-cell x y =
      cell-set_ball (set_ball w.board cur none) next (some i) x y
      ∙ cell-set_ball w.board cur none x y

  pub moved-kind : (r : CellRef) → (read moved r).kind ≡ (read w.board r).kind
  moved-kind r =
      kind-set_ball (set_ball w.board cur none) next (some i) r ∙ kind-set_ball w.board cur none r

  cur-ne-edge : cur ≢ off_board
  cur-ne-edge e = cc (
    cur-holds,
    ap (λ r. (read w.board r).ball) e,
    ap (λ (c : Cell). c.ball) (read-edge w.board ∙ en.valid.edge),
  )

  next-ne-edge : next ≢ off_board
  next-ne-edge e = en.clear (
      ap (λ r. (read w.board r).kind) e
      ∙ ap (λ (c : Cell). c.kind) (read-edge w.board ∙ en.valid.edge))

  moved-edge : moved.obstacle_cell ≡ w.board.obstacle_cell
  moved-edge =
      edge-set_ball (set_ball w.board cur none) next (some i) next-ne-edge
      ∙ edge-set_ball w.board cur none cur-ne-edge

  moved-sized : length moved.cells ≡ moved.width * moved.height
  moved-sized =
      rw
        (
          length-set_ball (set_ball w.board cur none) next (some i),
          length-set_ball w.board cur none,
          width-set_ball (set_ball w.board cur none) next (some i),
          height-set_ball (set_ball w.board cur none) next (some i),
          width-set_ball w.board cur none,
          height-set_ball w.board cur none,
        )
        en.valid.sized

  unmoved : (r : CellRef) → InBounds moved r → InBounds w.board r
  unmoved off_board b = tt
  unmoved (element k) b = omega (
    arith,
    length-set_ball (set_ball w.board cur none) next (some i),
    length-set_ball w.board cur none,
  )

  -- The balls after `x += dx, y += dy` and the stop on a sticky cell.
  module _ (q : Ball) (qx : q.x ≡ p.x +ℤ p.dx) (qy : q.y ≡ p.y +ℤ p.dy) where
    pub place_self : place moved (ball_of (set w.balls i q) i) ≡ next
    place_self =
        rw (get_or-set_self w.balls i q no_ball en.known, qx, qy) (moved-cell _ _ ∙ en.there)

    place_other :
        (k : ℕ)
        → k ≢ i
        → place moved (ball_of (set w.balls i q) k) ≡ place w.board (ball_of w.balls k)
    place_other k ne = rw (get_or-set_ne w.balls i k q no_ball (λ e. ne (sym e))) (moved-cell _ _)

    owns_other :
        (k : ℕ)
        → k ≢ i
        → k < length w.balls
        → (read moved (place w.board (ball_of w.balls k))).ball ≡ some k
    owns_other k ne h =
        moved-other _ (λ e. ne (some-inj (sym (mine e) ∙ cur-holds))) (λ e. cc (mine e, en.free))
          (cell-InBounds w.board _ _ en.valid.sized)
        ∙ en.valid.owns k h
      where
        mine :
            {r : CellRef} → place w.board (ball_of w.balls k) ≡ r → (read w.board r).ball ≡ some k
        mine e = subst (λ r. (read w.board r).ball ≡ some k) e (en.valid.owns k h)

    owns_moved :
        (k : ℕ)
        → Dec (k ≡ i)
        → k < length w.balls
        → (read moved (place moved (ball_of (set w.balls i q) k))).ball ≡ some k
    owns_moved k (yes e) h =
        subst (λ j. (read moved (place moved (ball_of (set w.balls i q) j))).ball ≡ some j) (sym e)
          (rw place_self moved-next)
    owns_moved k (no ne) h = rw (place_other k ne) (owns_other k ne h)

    back_other :
        (r : CellRef) (k : ℕ)
        → r ≢ cur
        → r ≢ next
        → InBounds w.board r
        → (read moved r).ball ≡ some k
        → (k < length w.balls) × (place moved (ball_of (set w.balls i q) k) ≡ r)
    back_other r k nc nn b e =
        let (h, at) = en.valid.back r k b (sym (moved-other r nc nn b) ∙ e) in
        (
          h,
          place_other k (λ same.
                nc (
                  sym at ∙ subst (λ j. place w.board (ball_of w.balls j) ≡ cur) (sym same) en.here))
              ∙ at,
        )

    back_moved :
        (r : CellRef) (k : ℕ)
        → Dec (r ≡ cur)
        → Dec (r ≡ next)
        → InBounds w.board r
        → (read moved r).ball ≡ some k
        → (k < length w.balls) × (place moved (ball_of (set w.balls i q) k) ≡ r)
    back_moved r k (yes ec) _ b e = absurd (cc (ap (λ s. (read moved s).ball) ec, moved-cur, e))
    back_moved r k (no nc) (yes en') b e =
        let same : i ≡ k =
          some-inj (sym moved-next ∙ ap (λ s. (read moved s).ball) (sym en') ∙ e) in
        subst (λ j. (j < length w.balls) × (place moved (ball_of (set w.balls i q) j) ≡ r)) same
          (en.known, place_self ∙ sym en')
    back_moved r k (no nc) (no nn) b e = back_other r k nc nn b e

    pub entered-IsValid : IsValid (record { board = moved; balls = set w.balls i q })
    entered-IsValid = record {
      sized = moved-sized;
      edge = moved-edge ∙ en.valid.edge;
      owns = λ k h. owns_moved k (ℕ_discrete k i) (omega (arith, length-set w.balls i q));
      back = λ r k b e.
          let (h, at) =
            back_moved r k (CellRef-discrete r cur) (CellRef-discrete r next) (unmoved r b) e in
          (omega (arith, length-set w.balls i q), at);
    }
