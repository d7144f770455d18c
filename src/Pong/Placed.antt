-- ===== src/Pong/Placed.antt =====
-- Counts of the cells of a pong board that hold no ball, and of those that are empty, for the loops of
-- pset6/simpong61.cc that look for one.
use native.Mathlib.Nat.{mod-lt, div-lt_iff_lt-mul, div-add-mod'}
use cs61_f18_psets.Base.{
  ℕ, zero, suc, ◌+◌, ◌*◌, ◌/◌, ◌%◌, ◌≤◌, ◌<◌, ◌≡◌, inl, inr, refl, ap, ◌∙◌, true, false, List, [],
  ◌∷◌, get_or, set, replicate, length, Bool-cases, if◌then◌else◌, arith,
}
use cs61_f18_psets.Base.Int.{pos}
use cs61_f18_psets.Pong.Board.{Board, Cell, CellType, element, cell, empty_cell}
use cs61_f18_psets.Pong.Simulation.{has_ball, is_empty}

-- The cells without a ball.
abbrev free_one : Cell → ℕ
free_one c = if has_ball c.ball then 0 else 1

abbrev pub free_cells : List Cell → ℕ
free_cells [] = 0
free_cells (c ∷ cs) = free_one c + free_cells cs

free_one-le : (c : Cell) → free_one c ≤ 1
free_one-le c = ground arith

pub free_cells-set :
    (cs : List Cell) (k : ℕ) (c : Cell) → free_cells cs ≤ free_cells (set cs k c) + 1
free_cells-set [] k c = omega arith
free_cells-set (d ∷ cs) zero c = omega (arith, free_one-le d)
free_cells-set (d ∷ cs) (suc k) c = omega (arith, free_cells-set cs k c)

pub free_cells-kind :
    (cs : List Cell) (k : ℕ) (d : Cell) (t : CellType)
    → free_cells (set cs k (record (get_or cs k d) { kind = t })) ≡ free_cells cs
free_cells-kind [] k d t = refl
free_cells-kind (c ∷ cs) zero d t = refl
free_cells-kind (c ∷ cs) (suc k) d t = omega (arith, free_cells-kind cs k d t)

pub free_cells-replicate : (n : ℕ) → free_cells (replicate n empty_cell) ≡ n
free_cells-replicate zero = refl
free_cells-replicate (suc n) = omega (arith, free_cells-replicate n)

pub some_free :
    (cs : List Cell) (d : Cell)
    → 1 ≤ free_cells cs
    → (j : ℕ) × (j < length cs) × (has_ball (get_or cs j d).ball ≡ false)
some_free [] d h = absurd (omega arith)
some_free (c ∷ cs) d h = elim (Bool-cases (has_ball c.ball)) [
  | inr free ↦ (0, omega arith, free)
  | inl busy ↦
      let taken : free_one c ≡ 0 = rw busy refl in
      let (j, lt, free) = some_free cs d (omega (arith, taken)) in (suc j, omega arith, free)
]

-- The empty cells among the first `m`.
abbrev empty_one : Cell → ℕ
empty_one c = if is_empty c.kind then 1 else 0

abbrev pub empty_cells : ℕ → List Cell → ℕ
empty_cells zero cs = 0
empty_cells (suc m) [] = 0
empty_cells (suc m) (c ∷ cs) = empty_one c + empty_cells m cs

empty_one-le : (c : Cell) → empty_one c ≤ 1
empty_one-le c = ground arith

pub empty_cells-set :
    (m : ℕ) (cs : List Cell) (k : ℕ) (c : Cell) → empty_cells m cs ≤ empty_cells m (set cs k c) + 1
empty_cells-set zero cs k c = omega arith
empty_cells-set (suc m) [] k c = omega arith
empty_cells-set (suc m) (d ∷ cs) zero c = omega (arith, empty_one-le d)
empty_cells-set (suc m) (d ∷ cs) (suc k) c = omega (arith, empty_cells-set m cs k c)

pub empty_cells-replicate : (m n : ℕ) → m ≤ n → empty_cells m (replicate n empty_cell) ≡ m
empty_cells-replicate zero n h = refl
empty_cells-replicate (suc m) zero h = absurd (omega arith)
empty_cells-replicate (suc m) (suc n) h = omega (arith, empty_cells-replicate m n (omega arith))

pub some_empty :
    (m : ℕ) (cs : List Cell) (d : Cell)
    → 1 ≤ empty_cells m cs
    → (j : ℕ) × (j < m) × (is_empty (get_or cs j d).kind ≡ true)
some_empty zero cs d h = absurd (omega arith)
some_empty (suc m) [] d h = absurd (omega arith)
some_empty (suc m) (c ∷ cs) d h = elim (Bool-cases (is_empty c.kind)) [
  | inl empty ↦ (0, omega arith, empty)
  | inr other ↦
      let none_here : empty_one c ≡ 0 = rw other refl in
      let (j, lt, empty) = some_empty m cs d (omega (arith, none_here)) in
      (suc j, omega arith, empty)
]

on_element :
    (b : Board) (x y : ℕ)
    → x < b.width
    → y < b.height
    → cell b (pos x) (pos y) ≡ element (y * b.width + x)
unfolding cell
on_element b x y hx hy = ground arith

-- The cell with the number `j` stands in column `j % width` and row `j / width`.
pub column_row :
    (b : Board) (j rows : ℕ)
    → 1 ≤ b.width
    → rows ≤ b.height
    → j < rows * b.width
    → (x : ℕ) × (y : ℕ) × (x < b.width) × (y < rows) × (cell b (pos x) (pos y) ≡ element j)
column_row b j rows wide le lt =
    let x = j % b.width in
    let y = j / b.width in
    let hx : x < b.width = mod-lt j wide in
    let hy : y < rows = (div-lt_iff_lt-mul wide).1 lt in
    (x, y, hx, hy, on_element b x y hx (omega arith) ∙ ap element (div-add-mod' j b.width))
