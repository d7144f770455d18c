-- ===== src/Pong/Client/Bounce.antt =====
-- A lone ball on a board without obstacles, as in pset6/pong61.cc: `move` always moves it.
use mathlib.Core.Path.{subst}
use cs61_f18_psets.Base.{
  get_or-set_self, ℕ, ◌+◌, ◌-◌, ◌*◌, ◌≤◌, ◌<◌, ◌≡◌, ◌≢◌, refl, sym, ap, ◌∙◌, Bool, true, false,
  Bool-cases, inl, inr, Option-cases, some, none, some-inj, not, ltb, ◌==◌, if◌then◌else◌, ltb→lt,
  ltb→le, arith, length,
}
use cs61_f18_psets.Base.Int.{ℤ, pos, negsuc, neg, ◌+ℤ◌}
use cs61_f18_psets.Pong.Board.{
  Board, CellRef, off_board, element, InBounds, cell_empty, is_obstacle, is_sticky, cell, read,
  set_ball,
}
use cs61_f18_psets.Pong.Ball.{
  Ball, no_ball, World, ball_of, place, reflect, enter, advance, at_rest, move,
}
use cs61_f18_psets.Pong.Store.{
  cell-InBounds, length-set_ball, kind-set_ball, width-set_ball, height-set_ball, read-edge,
}
use cs61_f18_psets.Pong.Invariant.{IsValid}
use cs61_f18_psets.Pong.Invariant.Keep.{Outcome, Advanced, move-Outcome}
use cs61_f18_psets.Pong.Client.Wave.{goes_up, step}

abbrev pub dir : Bool → ℤ
dir true = pos 1
dir false = negsuc 0

-- One ball, at `(x, y)`, on a board of empty cells; `up_x` and `up_y` are its directions.
pub record Alone (w : World) (x y : ℕ) (up_x up_y : Bool) : Type 0 where
  pub valid : IsValid w
  pub count : length w.balls ≡ 1
  pub plain : (k : ℕ) → k < length w.board.cells → (read w.board (element k)).kind ≡ cell_empty
  pub in_x : x < w.board.width
  pub in_y : y < w.board.height
  pub ball : ball_of w.balls 0 ≡ record { x = pos x; y = pos y; dx = dir up_x; dy = dir up_y }

pub cell_on :
    (b : Board) (x y : ℕ)
    → x < b.width
    → y < b.height
    → cell b (pos x) (pos y) ≡ element (y * b.width + x)
unfolding cell
cell_on b x y hx hy = ground arith

-- Beyond a side.
past_x : (b : Board) (x y : ℕ) → b.width ≤ x → cell b (pos x) (pos y) ≡ off_board
unfolding cell
past_x b x y h = ground arith

past_y : (b : Board) (x y : ℕ) → b.height ≤ y → cell b (pos x) (pos y) ≡ off_board
unfolding cell
past_y b x y h = ground arith

before_x : (b : Board) (x y : ℕ) → x ≡ 0 → cell b (pos x +ℤ negsuc 0) (pos y) ≡ off_board
unfolding cell ◌+ℤ◌
before_x b x y h = ground arith

before_y : (b : Board) (x y : ℕ) → y ≡ 0 → cell b (pos x) (pos y +ℤ negsuc 0) ≡ off_board
unfolding cell ◌+ℤ◌
before_y b x y h = ground arith

add_up : (x : ℕ) → pos x +ℤ pos 1 ≡ pos (x + 1)
unfolding ◌+ℤ◌
add_up x = ground arith

add_down : (x : ℕ) → x ≢ 0 → pos x +ℤ negsuc 0 ≡ pos (x - 1)
unfolding ◌+ℤ◌
add_down x h = ground arith

add_step : (x : ℕ) (d : Bool) → (d ≡ false → x ≢ 0) → pos x +ℤ dir d ≡ pos (step x d)
add_step x true h = add_up x
add_step x false h = add_down x (h refl)

-- A direction turns round at a side.
abbrev at_side : ℕ → ℕ → Bool → Bool
at_side side x true = not (ltb (x + 1) side)
at_side side x false = x == 0

turned :
    (side x : ℕ) (d : Bool)
    → (if at_side side x d then neg (dir d) else dir d) ≡ dir (goes_up side x d)
unfolding neg
turned side x true = elim (Bool-cases (ltb (x + 1) side)) [
  | inl on ↦ rw on refl
  | inr off ↦ rw off refl
]
turned side x false = elim (Bool-cases (x == 0)) [ inl on ↦ rw on refl | inr off ↦ rw off refl ]

-- On a side of two cells at least, the next step stays on the board.
down_only : (side x : ℕ) (d : Bool) → 1 < side → goes_up side x d ≡ false → x ≢ 0
down_only side x true h e = ground arith
down_only side x false h e = ground arith

step_in : (side x : ℕ) (d : Bool) → 1 < side → x < side → step x (goes_up side x d) < side
step_in side x true h lt = ground arith
step_in side x false h lt = ground arith

element-inj : {i j : ℕ} → element i ≡ element j → i ≡ j
element-inj e = cc

-- A step in both coordinates leads to another cell.
row_apart :
    (side x y : ℕ) (d e : Bool)
    → 1 < side
    → (d ≡ false → x ≢ 0)
    → (e ≡ false → y ≢ 0)
    → step y e * side + step x d ≢ y * side + x
row_apart side x y true true h hx hy same = absurd (grind arith)
row_apart side x y true false h hx hy same = absurd (grind arith)
row_apart side x y false true h hx hy same = absurd (grind arith)
row_apart side x y false false h hx hy same = absurd (grind arith)

pub not_at_rest :
    (d e : Bool) (i j : ℤ) → at_rest (record { x = i; y = j; dx = dir d; dy = dir e }) ≡ false
not_at_rest true e i j = refl
not_at_rest false e i j = refl

module _ {w : World} {x y : ℕ} {up_x up_y : Bool} (a : Alone w x y up_x up_y) where
  -- Whether there is an obstacle at a place.
  abbrev blocked : ℤ → ℤ → Bool
  blocked i j = is_obstacle (read w.board (cell w.board i j)).kind

  pub off_blocked : (i j : ℤ) → cell w.board i j ≡ off_board → blocked i j ≡ true
  off_blocked i j e = rw (e, read-edge w.board, a.valid.edge) refl

  kind_on :
      (i j : ℕ)
      → i < w.board.width
      → j < w.board.height
      → (read w.board (cell w.board (pos i) (pos j))).kind ≡ cell_empty
  kind_on i j hi hj =
      let e = cell_on w.board i j hi hj in
      let inside = cell-InBounds w.board (pos i) (pos j) a.valid.sized in
      rw e (a.plain (j * w.board.width + i) (subst (InBounds w.board) e inside))

  on_blocked : (i j : ℕ) → i < w.board.width → j < w.board.height → blocked (pos i) (pos j) ≡ false
  on_blocked i j hi hj = rw (kind_on i j hi hj) refl

  blocked_x : (d : Bool) → blocked (pos x +ℤ dir d) (pos y) ≡ at_side w.board.width x d
  blocked_x true = elim (Bool-cases (ltb (x + 1) w.board.width)) [
    | inl on ↦ rw (add_up x, on) (on_blocked (x + 1) y (ltb→lt _ _ on) a.in_y)
    | inr off ↦ rw (add_up x, off) (off_blocked _ _ (past_x w.board (x + 1) y (ltb→le _ _ off)))
  ]
  blocked_x false = elim (Bool-cases (x == 0)) [
    | inl side ↦ rw side (off_blocked _ _ (before_x w.board x y (ground arith)))
    | inr more ↦
        rw (add_down x (ground arith), more) (on_blocked (x - 1) y (omega (arith, a.in_x)) a.in_y)
  ]

  blocked_y : (d : Bool) → blocked (pos x) (pos y +ℤ dir d) ≡ at_side w.board.height y d
  blocked_y true = elim (Bool-cases (ltb (y + 1) w.board.height)) [
    | inl on ↦ rw (add_up y, on) (on_blocked x (y + 1) a.in_x (ltb→lt _ _ on))
    | inr off ↦ rw (add_up y, off) (off_blocked _ _ (past_y w.board x (y + 1) (ltb→le _ _ off)))
  ]
  blocked_y false = elim (Bool-cases (y == 0)) [
    | inl side ↦ rw side (off_blocked _ _ (before_y w.board x y (ground arith)))
    | inr more ↦
        rw (add_down y (ground arith), more) (on_blocked x (y - 1) a.in_x (omega (arith, a.in_y)))
  ]

  abbrev pub next_x : Bool
  next_x = goes_up w.board.width x up_x

  abbrev pub next_y : Bool
  next_y = goes_up w.board.height y up_y

  -- The ball as it leaves its cell.
  abbrev pub turned_ball : Ball
  turned_ball = record { x = pos x; y = pos y; dx = dir next_x; dy = dir next_y }

  pub reflect_lem : reflect w.board (ball_of w.balls 0) ≡ turned_ball
  unfolding reflect
  reflect_lem =
      rw
        (
          a.ball,
          blocked_x up_x,
          blocked_y up_y,
          turned w.board.width x up_x,
          turned w.board.height y up_y,
        )
        refl

  module _ (wide : 1 < w.board.width) (high : 1 < w.board.height) where
    abbrev x' : ℕ
    x' = step x next_x

    abbrev y' : ℕ
    y' = step y next_y

    abbrev there : CellRef
    there = cell w.board (pos x +ℤ dir next_x) (pos y +ℤ dir next_y)

    there_lem : there ≡ element (y' * w.board.width + x')
    there_lem =
        rw
          (
            add_step x next_x (down_only w.board.width x up_x wide),
            add_step y next_y (down_only w.board.height y up_y high),
          )
          (cell_on w.board x' y' (step_in _ x up_x wide a.in_x) (step_in _ y up_y high a.in_y))

    there_inside : y' * w.board.width + x' < length w.board.cells
    there_inside =
        subst (InBounds w.board) there_lem
          (cell-InBounds w.board (pos x +ℤ dir next_x) (pos y +ℤ dir next_y) a.valid.sized)

    there_plain : (read w.board there).kind ≡ cell_empty
    there_plain = rw there_lem (a.plain _ there_inside)

    here_lem : place w.board (ball_of w.balls 0) ≡ element (y * w.board.width + x)
    here_lem = rw a.ball (cell_on w.board x y a.in_x a.in_y)

    not_there : (j : ℕ) → j ≡ 0 → place w.board (ball_of w.balls j) ≢ there
    not_there j first at =
        let same : element (y' * w.board.width + x') ≡ element (y * w.board.width + x) =
          sym there_lem ∙ sym at ∙ ap (λ i. place w.board (ball_of w.balls i)) first ∙ here_lem in
        row_apart w.board.width x y next_x next_y wide (down_only w.board.width x up_x wide)
          (down_only w.board.height y up_y high) (element-inj same)

    there_free : (read w.board there).ball ≡ none
    there_free = elim (Option-cases (read w.board there).ball) [
      | inl free ↦ free
      | inr (j, taken) ↦
          let inside = subst (InBounds w.board) (sym there_lem) there_inside in
          let (known, at) = a.valid.back there j inside taken in
          absurd (not_there j (omega (arith, known, a.count)) at)
    ]

    one_ball : 0 < length w.balls
    one_ball = omega (arith, a.count)

    abbrev here : CellRef
    here = place w.board (ball_of w.balls 0)

    -- The board without the ball.
    abbrev left : Board
    left = set_ball w.board here none

    after : World
    after = advance w 0 turned_ball here there

    enter_lem : enter w 0 turned_ball here ≡ (after, true)
    unfolding enter after
    enter_lem = rw (there_free, there_plain, enter) refl

    moving : at_rest (ball_of w.balls 0) ≡ false
    moving = rw a.ball (not_at_rest up_x up_y (pos x) (pos y))

    move_once : move w 0 ≡ some (after, true)
    unfolding move
    move_once = rw (a.valid.owns 0 one_ball, moving, reflect_lem) (ap some enter_lem)

    outcome : IsValid after × Advanced w after 0
    outcome =
        let (r, e, o) = move-Outcome w 0 a.valid one_ball in
        subst (Outcome w 0) (some-inj (sym e ∙ move_once)) o

    sides : (after.board.width ≡ w.board.width) × (after.board.height ≡ w.board.height)
    unfolding after advance
    sides = (
      width-set_ball left there (some 0) ∙ width-set_ball w.board here none,
      height-set_ball left there (some 0) ∙ height-set_ball w.board here none,
    )

    not_sticky : is_sticky (read (set_ball left there (some 0)) there).kind ≡ false
    not_sticky = ap is_sticky (
        kind-set_ball left there (some 0) there
        ∙ kind-set_ball w.board here none there
        ∙ there_plain)

    ball_after :
        ball_of after.balls 0 ≡ record { x = pos x'; y = pos y'; dx = dir next_x; dy = dir next_y }
    unfolding after advance
    ball_after =
        get_or-set_self w.balls 0 _ no_ball one_ball
        ∙ rw
            (
              not_sticky,
              add_step x next_x (down_only w.board.width x up_x wide),
              add_step y next_y (down_only w.board.height y up_y high),
            )
            refl

    plain_after :
        (k : ℕ) → k < length after.board.cells → (read after.board (element k)).kind ≡ cell_empty
    unfolding after advance
    plain_after k h =
        outcome.1.kinds (element k)
        ∙ a.plain k
            (omega (arith, length-set_ball left there (some 0), length-set_ball w.board here none))

    after-Alone : Alone after x' y' next_x next_y
    after-Alone = record {
      valid = outcome.0;
      count = outcome.1.count ∙ a.count;
      plain = plain_after;
      in_x = omega (arith, sides, step_in w.board.width x up_x wide a.in_x);
      in_y = omega (arith, sides, step_in w.board.height y up_y high a.in_y);
      ball = ball_after;
    }

    -- On a board with two rows and two columns at least, `move` moves the ball in its first call.
    pub move_lem :
        (w' : World) × (move w 0 ≡ some (w', true))
        × Alone w' x' y' next_x next_y
        × (w'.board.width ≡ w.board.width)
        × (w'.board.height ≡ w.board.height)
    move_lem = (after, move_once, after-Alone, sides.0, sides.1)
