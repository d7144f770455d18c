-- ===== src/Pong/Client/Game.antt =====
-- The game of pset6/pong61.cc: where the ball is in each round, and the boards on which a round never
-- ends.
use mathlib.Core.Path.{subst}
use cs61_f18_psets.Base.{
  ℕ, zero, suc, ◌+◌, ◌*◌, ◌^◌, ◌<◌, ◌≡◌, ◌≢◌, refl, sym, ap, ◌∙◌, Bool, true, some, get_or,
  replicate, length-replicate, arith,
}
use cs61_f18_psets.Base.Int.{pos}
use cs61_f18_psets.Pong.Board.{
  Board, Cell, CellRef, off_board, element, cell_empty, empty_cell, new_board, cell, read,
}
use cs61_f18_psets.Pong.Ball.{Ball, World, new_ball, move}
use cs61_f18_psets.Pong.Store.{kind-set_ball, length-set_ball, width-set_ball, height-set_ball}
use cs61_f18_psets.Pong.Setup.{empty_world, new_board-IsValid, new_board-free, new_ball-IsValid}
use cs61_f18_psets.Pong.Client.{turned, move_until, first_world, after_rounds, position}
use cs61_f18_psets.Pong.Client.Wave.{
  wave, up, goes_up, step, step-wave, wave_turn, wave_start, up_start,
}
use cs61_f18_psets.Pong.Client.Bounce.{Alone, cell_on, move_lem}

kind-replicate :
    (n k : ℕ) (d : Cell) → k < n → (get_or (replicate n empty_cell) k d).kind ≡ cell_empty
kind-replicate zero k d h = absurd (omega arith)
kind-replicate (suc n) zero d h = refl
kind-replicate (suc n) (suc k) d h = kind-replicate n k d (omega arith)

corner :
    (width height : ℕ)
    → 0 < width
    → 0 < height
    → cell (new_board width height) (pos 0) (pos 0) ≢ off_board
unfolding new_board
corner width height hw hh e = cc (e, cell_on (new_board width height) 0 0 hw hh)

-- The ball that the game begins with.
pub first_world-Alone :
    (width height : ℕ)
    → 0 < width
    → 0 < height
    → Alone (first_world width height) 0 0 true true
      × ((first_world width height).board.width ≡ width)
      × ((first_world width height).board.height ≡ height)
unfolding first_world new_ball new_board read
first_world-Alone width height hw hh =
    let b : Board = new_board width height in
    let at : CellRef = cell b (pos 0) (pos 0) in
    let same_width = width-set_ball b at (some 0) in
    let same_height = height-set_ball b at (some 0) in
    (
      record {
        valid =
            new_ball-IsValid (empty_world width height) (pos 0) (pos 0) (pos 1) (pos 1)
              (new_board-IsValid width height) (corner width height hw hh)
              (new_board-free width height at);
        count = refl;
        plain = λ k h.
            kind-set_ball b at (some 0) (element k)
            ∙ kind-replicate (width * height) k _ (
                omega (
                  arith,
                  length-set_ball b at (some 0),
                  length-replicate (width * height) empty_cell,
                ));
        in_x = omega (arith, same_width);
        in_y = omega (arith, same_height);
        ball = refl;
      },
      same_width,
      same_height,
    )

-- After `n` rounds: the ball, and its directions in the next round.
record Round (width height n : ℕ) (w : World) : Type 0 where
  up_x : Bool
  up_y : Bool
  alone : Alone w (wave width n) (wave height n) up_x up_y
  same_width : w.board.width ≡ width
  same_height : w.board.height ≡ height
  turns_x : goes_up width (wave width n) up_x ≡ up width n
  turns_y : goes_up height (wave height n) up_y ≡ up height n

Alone-at :
    {w : World} {x y x' y' : ℕ} {d e d' e' : Bool}
    → x ≡ x'
    → y ≡ y'
    → d ≡ d'
    → e ≡ e'
    → Alone w x y d e
    → Alone w x' y' d' e'
Alone-at {w = w} p q r s a =
    subst (λ (g : ℕ × ℕ × Bool × Bool). Alone w g.0 g.1 g.2 g.3) (cc (p, q, r, s)) a

turned_once :
    (fuel : ℕ) (w w' : World) → move w 0 ≡ some (w', true) → move_until (suc fuel) w ≡ turned w'
unfolding move_until
turned_once fuel w w' e = rw (e, move_until) refl

one_more :
    (fuel n : ℕ) (w w' : World)
    → move_until fuel w ≡ turned w'
    → after_rounds fuel (suc n) w ≡ after_rounds fuel n w'
unfolding after_rounds
one_more fuel n w w' e = rw (e, after_rounds) refl

goes_first : (side : ℕ) → 1 < side → goes_up side (wave side 0) true ≡ up side 0
goes_first side h = rw (up_start side h, wave_start side h) (ground arith)

module _ (width height : ℕ) (wide : 1 < width) (high : 1 < height) where
  first_world-Round : Round width height 0 (first_world width height)
  first_world-Round =
      let (alone, same_width, same_height) =
        first_world-Alone width height (omega arith) (omega arith) in
      record {
        up_x = true;
        up_y = true;
        alone =
            Alone-at (sym (wave_start width wide)) (sym (wave_start height high)) refl refl alone;
        same_width = same_width;
        same_height = same_height;
        turns_x = goes_first width wide;
        turns_y = goes_first height high;
      }

  move_until-Round :
      (n fuel : ℕ) (w : World)
      → Round width height n w
      → (w' : World) × (move_until (suc fuel) w ≡ turned w') × Round width height (n + 1) w'
  move_until-Round n fuel w r =
      let (w', moves, alone, same_width, same_height) =
        move_lem r.alone (omega (arith, r.same_width)) (omega (arith, r.same_height)) in
      let turn_x = ap (λ s. goes_up s (wave width n) r.up_x) r.same_width ∙ r.turns_x in
      let turn_y = ap (λ s. goes_up s (wave height n) r.up_y) r.same_height ∙ r.turns_y in
      (
        w',
        turned_once fuel w w' moves,
        record {
          up_x = up width n;
          up_y = up height n;
          alone =
              Alone-at (ap (step (wave width n)) turn_x ∙ step-wave width n wide)
                (ap (step (wave height n)) turn_y ∙ step-wave height n high) turn_x turn_y alone;
          same_width = same_width ∙ r.same_width;
          same_height = same_height ∙ r.same_height;
          turns_x = wave_turn width n wide;
          turns_y = wave_turn height n high;
        },
      )

  rounds_on :
      (n m fuel : ℕ) (w : World)
      → Round width height m w
      → (w' : World) × (after_rounds (suc fuel) n w ≡ some w') × Round width height (m + n) w'
  unfolding after_rounds
  rounds_on zero m fuel w r = (w, refl, subst (λ i. Round width height i w) (omega arith) r)
  rounds_on (suc n) m fuel w r =
      let (w₁, one, r₁) = move_until-Round m fuel w r in
      let (w', more, r') = rounds_on n (m + 1) fuel w₁ r₁ in
      (
        w',
        one_more (suc fuel) n w w₁ one ∙ more,
        subst (λ i. Round width height i w') (omega arith) r',
      )

  -- On a board with two rows and two columns at least, and fewer than 2 ^ 31 cells: every round ends, and in round `n` the client
  -- sends the position at which the ball stands after going up and down between the two sides, once in
  -- each `2 * (side - 1)` rounds.
  pub position_lem :
      (n fuel : ℕ)
      → width * height < 2 ^ 31
      → (w : World) × (after_rounds (suc fuel) n (first_world width height) ≡ some w)
        × (position w ≡ (pos (wave width n), pos (wave height n)))
  position_lem n fuel small =
      let (w, e, r) = rounds_on n 0 fuel (first_world width height) first_world-Round in
      let r' : Round width height n w = subst (λ i. Round width height i w) (omega arith) r in
      (w, e, ap (λ (b : Ball). (b.x, b.y)) r'.alone.ball)
