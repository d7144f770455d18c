-- ===== src/Pong/Board.antt =====
-- `pong_celltype`, `pong_cell` and `pong_board` of pset6/pongboard.hh. A pointer to a ball is the
-- ball's index in the list of balls; a reference to a cell is a value of `CellRef`.
use cs61_f18_psets.Base.{
  ℕ, ◌+◌, ◌*◌, ◌<◌, Bool, not, ◌||◌, Option, none, List, get_or, set, replicate, length,
  if◌then◌else◌,
}
use cs61_f18_psets.Base.Int.{ℤ, pos, pos_part, ltb_ℤ}

pub data CellType : Type 0 where
  cell_empty cell_sticky cell_obstacle : CellType

pub record Cell : Type 0 where
  pub kind : CellType
  pub ball : Option ℕ

abbrev pub empty_cell : Cell
empty_cell = record { kind = cell_empty; ball = none }

pub record Board : Type 0 where
  pub width : ℕ
  pub height : ℕ
  pub cells : List Cell
  pub obstacle_cell : Cell

-- The source multiplies two `int`s, which is defined where the board has fewer than 2 ^ 31 cells.
unfoldable pub new_board : ℕ → ℕ → Board
new_board width height = record {
  width = width;
  height = height;
  cells = replicate (width * height) empty_cell;
  obstacle_cell = record { kind = cell_obstacle; ball = none };
}

-- What `cell(x, y)` returns a reference to: an element of `cells_`, or `obstacle_cell_`.
pub data CellRef : Type 0 where
  off_board : CellRef
  element : ℕ → CellRef

unfoldable pub cell : Board → ℤ → ℤ → CellRef
cell b x y =
    if ltb_ℤ x (pos 0)
      || not (ltb_ℤ x (pos b.width))
      || ltb_ℤ y (pos 0)
      || not (ltb_ℤ y (pos b.height))
    then off_board
    else element (pos_part y * b.width + pos_part x)

-- Reading and writing through a reference. `InBounds` says that no index is out of range.
unfoldable pub read : Board → CellRef → Cell
read b off_board = b.obstacle_cell
read b (element k) = get_or b.cells k b.obstacle_cell

unfoldable pub write : Board → CellRef → Cell → Board
write b off_board c = record b { obstacle_cell = c }
write b (element k) c = record b { cells = set b.cells k c }

abbrev pub InBounds : Board → CellRef → Type 0
InBounds b off_board = Unit {0}
InBounds b (element k) = k < length b.cells

-- `cell.ball_ = p`.
unfoldable pub set_ball : Board → CellRef → Option ℕ → Board
unfolding read write
set_ball b r p = write b r (record (read b r) { ball = p })

abbrev pub is_obstacle : CellType → Bool
is_obstacle cell_obstacle = Bool.true
is_obstacle _ = Bool.false

abbrev pub is_sticky : CellType → Bool
is_sticky cell_sticky = Bool.true
is_sticky _ = Bool.false
