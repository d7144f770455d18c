-- ===== src/Pong/Simulation.antt =====
-- pset6/simpong61.cc: the size checks of `main`, its loops that place sticky cells and balls, and the
-- picture of the board that `signal_handler` writes. The generator behind `random_int` is the C++
-- library's: an engine, and draws that stay in the range asked for. A `do … while` loop that draws
-- until it finds a cell takes fuel; `none` means that the fuel ran out.
use cs61_f18_psets.Base.{
  ℕ, zero, suc, ◌+◌, ◌-◌, ◌≤◌, Bool, true, false, not, ◌||◌, Option, none, some, List, [], ◌∷◌,
  ◌++◌, ltb, if◌then◌else◌,
}
use cs61_f18_psets.Base.Int.{ℤ, pos, negsuc, ltb_ℤ, ◌*ℤ◌}
use cs61_f18_psets.Pong.Board.{
  Board, Cell, CellType, cell_empty, cell_sticky, cell_obstacle, CellRef, cell, read, write,
  new_board,
}
use cs61_f18_psets.Pong.Ball.{World, new_ball}

pub record Random : Type 1 where
  pub Engine : Type 0
  pub random_int : ℕ → ℕ → Engine → ℕ × Engine
  pub in_range :
      (lo hi : ℕ) (e : Engine)
      → lo ≤ hi
      → (lo ≤ (random_int lo hi e).0) × ((random_int lo hi e).0 ≤ hi)

abbrev pub is_empty : CellType → Bool
is_empty cell_empty = true
is_empty _ = false

abbrev pub has_ball : Option ℕ → Bool
has_ball none = false
has_ball (some i) = true

-- `cell.type_ = t`.
unfoldable pub set_kind : Board → CellRef → CellType → Board
unfolding read write
set_kind b r t = write b r (record (read b r) { kind = t })

-- The test behind which `main` calls `usage()`: `optind != argc` is `extra`.
unfoldable pub bad_sizes : Bool → ℤ → ℤ → ℤ → ℤ → Bool
bad_sizes extra width height nballs nsticky =
    extra
    || ltb_ℤ width (pos 2)
    || ltb_ℤ height (pos 2)
    || not (ltb_ℤ nballs (width *ℤ height))
    || not (ltb_ℤ nsticky (width *ℤ height))

abbrev pub direction : ℕ → ℤ
direction zero = negsuc 0
direction (suc n) = pos 1

module _ (rng : Random) where
  open rng use {Engine, random_int}

  -- Both coordinates of a sticky cell are drawn below the width.
  unfoldable pub find_empty : ℕ → Board → Engine → Option (CellRef × Engine)
  find_empty zero b e = none
  find_empty (suc fuel) b e =
      let (x, e₁) = random_int 0 (b.width - 1) e in
      let (y, e₂) = random_int 0 (b.width - 1) e₁ in
      let rest = find_empty fuel b e₂ in
      if is_empty (read b (cell b (pos x) (pos y))).kind
      then some (cell b (pos x) (pos y), e₂)
      else rest

  unfoldable pub place_sticky : ℕ → ℕ → Board → Engine → Option (Board × Engine)
  place_sticky fuel zero b e = some (b, e)
  place_sticky fuel (suc n) b e = elim (find_empty fuel b e) [
    | none ↦ none
    | some (r, e') ↦ place_sticky fuel n (set_kind b r cell_sticky) e'
  ]

  unfoldable pub find_free : ℕ → Board → Engine → Option ((ℕ × ℕ) × Engine)
  find_free zero b e = none
  find_free (suc fuel) b e =
      let (x, e₁) = random_int 0 (b.width - 1) e in
      let (y, e₂) = random_int 0 (b.height - 1) e₁ in
      let rest = find_free fuel b e₂ in
      if has_ball (read b (cell b (pos x) (pos y))).ball then rest else some ((x, y), e₂)

  unfoldable pub place_balls : ℕ → ℕ → World → Engine → Option (World × Engine)
  place_balls fuel zero w e = some (w, e)
  place_balls fuel (suc n) w e = elim (find_free fuel w.board e) [
    | none ↦ none
    | some ((x, y), e') ↦
        let (rx, e₁) = random_int 0 1 e' in
        let (ry, e₂) = random_int 0 1 e₁ in
        place_balls fuel n (new_ball w (pos x) (pos y) (direction rx) (direction ry)) e₂
  ]

  -- The board, the sticky cells and the balls of `main`.
  unfoldable pub set_up : ℕ → ℕ → ℕ → ℕ → ℕ → Engine → Option (World × Engine)
  set_up fuel width height nballs nsticky e =
      elim (place_sticky fuel nsticky (new_board width height) e) [
        | none ↦ none
        | some (b, e') ↦ place_balls fuel nballs (record { board = b; balls = [] }) e'
      ]

-- `signal_handler`: the character of one cell, a line of them, and the lines of the board.
unfoldable pub picture : Cell → ℕ
picture c =
    if has_ball c.ball
    then b'O'
    else elim c.kind [ cell_empty ↦ b'.' | cell_sticky ↦ b'_' | cell_obstacle ↦ b'X' ]

-- The handler's buffer holds `bufsiz` bytes, the C library's `BUFSIZ`.
module _ (bufsiz : ℕ) where
  -- The columns from `x` on, `n` of them; only the first `BUFSIZ - 1` go into the buffer.
  unfoldable pub picture_row : Board → ℕ → ℕ → ℕ → List ℕ
  picture_row b y x zero = []
  picture_row b y x (suc n) =
      let rest = picture_row b y (x + 1) n in
      if ltb x (bufsiz - 1) then picture (read b (cell b (pos x) (pos y))) ∷ rest else rest

  -- What is written for row `y`.
  unfoldable pub picture_line : Board → ℕ → List ℕ
  picture_line b y = picture_row b y 0 b.width ++ 10 ∷ []
