-- ===== src/Pong/SetUp.antt =====
-- pset6/simpong61.cc: the loops with which `main` sets its board up end when the random numbers bring
-- up every cell, and they leave a board on which a round of moves runs to its end.
use native.Mathlib.Nat.{mul-le-mul_right, mul_comm}
use mathlib.Core.Path.{subst}
use cs61_f18_psets.Base.{
  ℕ, zero, suc, ◌+◌, ◌*◌, ◌^◌, ◌≤◌, ◌<◌, ◌≡◌, refl, sym, ◌∙◌, Option, some, [], length, length-set,
  length-replicate, min, arith,
}
use cs61_f18_psets.Base.Int.{ℤ, pos}
use cs61_f18_psets.Pong.Board.{Board, CellRef, off_board, element, cell_sticky, new_board, set_ball}
use cs61_f18_psets.Pong.Ball.{World, new_ball}
use cs61_f18_psets.Pong.Store.{length-set_ball}
use cs61_f18_psets.Pong.Invariant.{IsValid}
use cs61_f18_psets.Pong.Motion.{round}
use cs61_f18_psets.Pong.Simulation.{Random, set_kind, place_sticky, place_balls, set_up, direction}
use cs61_f18_psets.Pong.Settled.{
  set_up-IsValid, width-set_kind, height-set_kind, width-new_ball, height-new_ball,
}
use cs61_f18_psets.Pong.Placed.{
  free_cells, free_cells-set, free_cells-kind, free_cells-replicate, empty_cells, empty_cells-set,
  empty_cells-replicate,
}
use cs61_f18_psets.Pong.Fair.{IsFair, find_free-some, find_empty-some}

-- A change of one cell.
empty_cells-set_kind :
    (m : ℕ) (b : Board) (r : CellRef)
    → empty_cells m b.cells ≤ empty_cells m (set_kind b r cell_sticky).cells + 1
unfolding set_kind
empty_cells-set_kind m b off_board = omega arith
empty_cells-set_kind m b (element k) = empty_cells-set m b.cells k _

free_cells-set_kind :
    (b : Board) (r : CellRef) → free_cells (set_kind b r cell_sticky).cells ≡ free_cells b.cells
unfolding set_kind
free_cells-set_kind b off_board = refl
free_cells-set_kind b (element k) = free_cells-kind b.cells k b.obstacle_cell cell_sticky

free_cells-set_ball :
    (b : Board) (r : CellRef) (p : Option ℕ)
    → free_cells b.cells ≤ free_cells (set_ball b r p).cells + 1
unfolding set_ball
free_cells-set_ball b off_board p = omega arith
free_cells-set_ball b (element k) p = free_cells-set b.cells k _

length-set_kind :
    (b : Board) (r : CellRef) → length (set_kind b r cell_sticky).cells ≡ length b.cells
unfolding set_kind
length-set_kind b off_board = refl
length-set_kind b (element k) = length-set b.cells k _

module _ (rng : Random) (fuel width height : ℕ) (wide : 1 ≤ width) where
  open rng use {Engine, random_int}

  abbrev HasShape : Board → Type 0
  HasShape b = (b.width ≡ width) × (b.height ≡ height) × (length b.cells ≡ width * height)

  HasShape-set_kind : (b : Board) (r : CellRef) → HasShape b → HasShape (set_kind b r cell_sticky)
  HasShape-set_kind b r (hw, hh, hs) = (
    width-set_kind b r cell_sticky ∙ hw,
    height-set_kind b r cell_sticky ∙ hh,
    length-set_kind b r ∙ hs,
  )

  HasShape-new_ball :
      (w : World) (x y dx dy : ℤ) → HasShape w.board → HasShape (new_ball w x y dx dy).board
  unfolding new_ball
  HasShape-new_ball w x y dx dy (hw, hh, hs) = (
    width-new_ball w x y dx dy ∙ hw,
    height-new_ball w x y dx dy ∙ hh,
    length-set_ball w.board _ _ ∙ hs,
  )

  free_cells-new_ball :
      (w : World) (x y dx dy : ℤ)
      → free_cells w.board.cells ≤ free_cells (new_ball w x y dx dy).board.cells + 1
  unfolding new_ball
  free_cells-new_ball w x y dx dy = free_cells-set_ball w.board _ _

  place_sticky_total :
      (rows n : ℕ) (b : Board) (e : Engine)
      → rows ≤ height
      → rows ≤ width
      → IsFair rng fuel width width
      → HasShape b
      → n ≤ empty_cells (rows * width) b.cells
      → (b' : Board) × (e' : Engine) × (place_sticky rng fuel n b e ≡ some (b', e'))
        × HasShape b'
        × (free_cells b'.cells ≡ free_cells b.cells)
  unfolding place_sticky
  place_sticky_total rows zero b e le le' fair shape h = (b, e, refl, shape, refl)
  place_sticky_total rows (suc n) b e le le' fair (hw, hh, hs) h =
      let ((r, e₁), found) =
        find_empty-some rng fuel rows b e (omega (arith, hw)) (omega (arith, hh))
          (omega (arith, hw)) (subst (λ w. IsFair rng fuel w w) (sym hw) fair)
          (subst (λ w. 1 ≤ empty_cells (rows * w) b.cells) (sym hw) (omega arith)) in
      let (b', e', ends, shape, same) =
        place_sticky_total rows n (set_kind b r cell_sticky) e₁ le le' fair
          (HasShape-set_kind b r (hw, hh, hs))
          (omega (arith, empty_cells-set_kind (rows * width) b r)) in
      (b', e', rw (found, place_sticky) ends, shape, same ∙ free_cells-set_kind b r)

  place_balls_total :
      (n : ℕ) (w : World) (e : Engine)
      → IsFair rng fuel width height
      → HasShape w.board
      → n ≤ free_cells w.board.cells
      → (r : World × Engine) × (place_balls rng fuel n w e ≡ some r)
  unfolding place_balls
  place_balls_total zero w e fair shape h = ((w, e), refl)
  place_balls_total (suc n) w e fair (hw, hh, hs) h =
      let sized : length w.board.cells ≡ w.board.width * w.board.height = rw (hw, hh) hs in
      let (((x, y), e₀), found) =
        find_free-some rng fuel w.board e (omega (arith, hw)) sized
          (subst (λ (q : ℕ × ℕ). IsFair rng fuel q.0 q.1) (cc (hw, hh)) fair) (omega arith) in
      let (rx, e₁) = random_int 0 1 e₀ in
      let (ry, e₂) = random_int 0 1 e₁ in
      let u = new_ball w (pos x) (pos y) (direction rx) (direction ry) in
      let (r, ends) =
        place_balls_total n u e₂ fair (HasShape-new_ball w _ _ _ _ (hw, hh, hs))
          (omega (arith, free_cells-new_ball w (pos x) (pos y) (direction rx) (direction ry))) in
      (r, rw (found, place_balls) ends)

set_up_ends :
    (rng : Random) (fuel width height nballs nsticky : ℕ) (e : Random.Engine rng)
    → 1 ≤ width
    → nballs ≤ width * height
    → nsticky ≤ min width height * width
    → IsFair rng fuel width height
    → IsFair rng fuel width width
    → (r : World × Random.Engine rng) × (set_up rng fuel width height nballs nsticky e ≡ some r)
unfolding set_up new_board
set_up_ends rng fuel width height nballs nsticky e wide balls sticky fair fair_rows =
    let rows = min width height in
    let small : rows ≤ height = ground arith in
    let narrow : rows ≤ width = ground arith in
    let reached : rows * width ≤ width * height =
      omega (arith, mul-le-mul_right width small, mul_comm width height) in
    let (b, e₁, placed, shape, same) =
      place_sticky_total rng fuel width height wide rows nsticky (new_board width height) e small
        narrow fair_rows (refl, refl, length-replicate (width * height) _)
        (omega (arith, empty_cells-replicate (rows * width) (width * height) reached)) in
    let (r, ends) =
      place_balls_total rng fuel width height wide nballs (record { board = b; balls = [] }) e₁ fair
        shape (omega (arith, same, free_cells-replicate (width * height))) in
    (r, rw (placed, set_up) ends)

-- On a board with fewer than 2 ^ 31 cells, with no more balls than cells and no more sticky cells than
-- the draws can reach (rows below the width), and with an engine that brings up every cell within
-- `fuel` pairs of draws: `main`'s loops end, the world that they leave is valid and has exactly `nballs`
-- balls, and a round of moves of all its balls runs to its end without a failed assertion.
pub set_up_total :
    (rng : Random) (fuel width height nballs nsticky : ℕ) (e : Random.Engine rng)
    → 1 ≤ width
    → 1 ≤ height
    → width * height < 2 ^ 31
    → nballs ≤ width * height
    → nsticky ≤ min width height * width
    → IsFair rng fuel width height
    → IsFair rng fuel width width
    → (w : World) × (e' : Random.Engine rng) × (set_up rng fuel width height nballs nsticky e
        ≡ some (w, e'))
      × IsValid w
      × (length w.balls ≡ nballs)
      × ((w' : World) × (round w ≡ some w'))
set_up_total rng fuel width height nballs nsticky e wide high small balls sticky fair fair_rows =
    let ((w, e'), ends) =
      set_up_ends rng fuel width height nballs nsticky e wide balls sticky fair fair_rows in
    let (valid, count, ran) =
      set_up-IsValid rng fuel width height nballs nsticky e e' w wide high ends in
    (w, e', ends, valid, count, ran)
