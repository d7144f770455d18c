-- ===== src/Pong/Picture.antt =====
-- pset6/simpong61.cc: which cells the loop over `nsticky` can make sticky, and the length of the
-- lines that `signal_handler` writes.
use mathlib.Core.Path.{subst}
use cs61_f18_psets.Base.{
  ℕ, zero, suc, ◌+◌, ◌-◌, ◌*◌, ◌≤◌, ◌<◌, ◌≡◌, refl, sym, ap, ◌∙◌, true, false, some, [], ◌∷◌,
  length, length-append, Bool-cases, Option-cases, inl, inr, min, arith, get_or-set_ne, some-inj,
}
use cs61_f18_psets.Base.Int.{pos}
use cs61_f18_psets.Pong.Board.{
  Board, Cell, CellType, CellRef, off_board, element, cell, read, cell_sticky, cell_obstacle,
}
use cs61_f18_psets.Pong.Simulation.{
  Random, set_kind, find_empty, place_sticky, is_empty, picture_row, picture_line,
}

length-picture_row :
    (bufsiz : ℕ) (b : Board) (y x n : ℕ)
    → length (picture_row bufsiz b y x n) ≡ min (x + n) (bufsiz - 1) - x
unfolding picture_row
length-picture_row bufsiz b y x zero = omega arith
length-picture_row bufsiz b y x (suc n) = ground (arith, length-picture_row bufsiz b y (x + 1) n)

-- For every row the handler writes as many bytes as it asks `write` for, the width and a newline or
-- at most the buffer's size.
pub length-picture_line :
    (bufsiz : ℕ) (b : Board) (y : ℕ)
    → 1 ≤ bufsiz
    → length (picture_line bufsiz b y) ≡ min (b.width + 1) bufsiz
unfolding picture_line
length-picture_line bufsiz b y h = omega (
  arith,
  length-append (picture_row bufsiz b y 0 b.width) (10 ∷ []),
  length-picture_row bufsiz b y 0 b.width,
)

-- The elements of `cells_` from `width * width` on, the rows that are not below the width.
abbrev pub SameBelow : Board → Board → Type 0
SameBelow b c =
    (k : ℕ) → b.width * b.width ≤ k → (read c (element k)).kind ≡ (read b (element k)).kind

square_index : (x y w : ℕ) → x < w → y < w → y * w + x < w * w
square_index x y w hx hy = grind arith

abbrev InSquare : Board → CellRef → Type 0
InSquare b off_board = Unit {0}
InSquare b (element j) = j < b.width * b.width

cell-InSquare :
    (b : Board) (x y : ℕ) → x < b.width → y < b.width → InSquare b (cell b (pos x) (pos y))
unfolding cell
cell-InSquare b x y hx hy = ground (arith, square_index x y b.width)

-- A change inside the square of the first `width` rows.
set_kind-SameBelow :
    (b : Board) (r : CellRef) (t : CellType)
    → InSquare b r
    → is_empty (read b r).kind ≡ true
    → is_empty b.obstacle_cell.kind ≡ false
    → SameBelow b (set_kind b r t)
      × ((set_kind b r t).obstacle_cell ≡ b.obstacle_cell)
      × ((set_kind b r t).width ≡ b.width)
unfolding set_kind
set_kind-SameBelow b off_board t sq empty edge = absurd (cc)
set_kind-SameBelow b (element j) t sq empty edge =
    (λ k h. ap (λ (c : Cell). c.kind) (get_or-set_ne b.cells j k _ _ (omega arith)), refl, refl)

module _ (rng : Random) where
  open rng use {Engine, random_int, in_range}

  find_empty-InSquare :
      (fuel : ℕ) (b : Board) (e e' : Engine) (r : CellRef)
      → 1 ≤ b.width
      → find_empty rng fuel b e ≡ some (r, e')
      → InSquare b r × (is_empty (read b r).kind ≡ true)
  unfolding find_empty
  find_empty-InSquare zero b e e' r hw h = absurd (cc)
  find_empty-InSquare (suc fuel) b e e' r hw h =
      let (x, e₁) = random_int 0 (b.width - 1) e in
      let (y, e₂) = random_int 0 (b.width - 1) e₁ in
      let hx : x < b.width = omega (arith, in_range 0 (b.width - 1) e) in
      let hy : y < b.width = omega (arith, in_range 0 (b.width - 1) e₁) in
      elim (Bool-cases (is_empty (read b (cell b (pos x) (pos y))).kind)) [
        | inl yes_empty ↦
            let same : cell b (pos x) (pos y) ≡ r =
              ap (λ (q : CellRef × Engine). q.0) (some-inj (rw (yes_empty, find_empty) at h)) in
            (
              subst (InSquare b) same (cell-InSquare b x y hx hy),
              subst (λ s. is_empty (read b s).kind ≡ true) same yes_empty,
            )
        | inr other ↦ find_empty-InSquare fuel b e₂ e' r hw (rw (other, find_empty) at h)
      ]

  place_sticky-SameBelow :
      (fuel n : ℕ) (b b' : Board) (e e' : Engine)
      → 1 ≤ b.width
      → is_empty b.obstacle_cell.kind ≡ false
      → place_sticky rng fuel n b e ≡ some (b', e')
      → SameBelow b b'
  unfolding place_sticky
  place_sticky-SameBelow fuel zero b b' e e' hw edge h =
      let same : b ≡ b' = ap (λ (q : Board × Engine). q.0) (some-inj h) in
      λ k hk. ap (λ (c : Board). (read c (element k)).kind) (sym same)
  place_sticky-SameBelow fuel (suc n) b b' e e' hw edge h =
      elim (Option-cases (find_empty rng fuel b e)) [
        | inl no_cell ↦ absurd (cc (rw (no_cell, place_sticky) at h))
        | inr ((r, e₁), found) ↦
            let (sq, empty) = find_empty-InSquare fuel b e e₁ r hw found in
            let (same, ho, hc) = set_kind-SameBelow b r cell_sticky sq empty edge in
            let rest =
              place_sticky-SameBelow fuel n (set_kind b r cell_sticky) b' e₁ e' (rw hc hw)
                (rw ho edge) (rw (found, place_sticky) at h) in
            λ k hk. rest k (rw hc hk) ∙ same k hk
      ]

-- The loop over `nsticky` draws the row of a sticky cell below the board's width, so on a board that
-- is higher than wide the cells from the row `width` on keep their types, and never become sticky.
pub place_sticky_square :
    (rng : Random) (fuel n : ℕ) (b b' : Board) (e e' : Random.Engine rng)
    → 1 ≤ b.width
    → b.obstacle_cell.kind ≡ cell_obstacle
    → place_sticky rng fuel n b e ≡ some (b', e')
    → SameBelow b b'
place_sticky_square rng fuel n b b' e e' hw edge h =
    place_sticky-SameBelow rng fuel n b b' e e' hw (rw edge) h
