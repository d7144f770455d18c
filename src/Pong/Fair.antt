-- ===== src/Pong/Fair.antt =====
-- pset6/simpong61.cc: a loop that draws cells until one is free or empty ends when the random numbers
-- bring up every cell and there is such a one.
use cs61_f18_psets.Base.{
  ℕ, zero, suc, ◌-◌, ◌*◌, ◌≤◌, ◌<◌, ◌≡◌, ◌⊎◌, inl, inr, refl, true, false, some, length, Bool-cases,
  arith,
}
use cs61_f18_psets.Base.Int.{pos}
use cs61_f18_psets.Pong.Board.{Board, CellRef, cell, read}
use cs61_f18_psets.Pong.Simulation.{Random, find_empty, find_free, has_ball, is_empty}
use cs61_f18_psets.Pong.Placed.{free_cells, some_free, empty_cells, some_empty, column_row}

-- One of the next `n` pairs of draws, below `width` and below `height`, is `x` and `y`.
abbrev pub Hits : (rng : Random) → ℕ → ℕ → ℕ → ℕ → ℕ → Random.Engine rng → Type 0
Hits rng zero width height x y e = ⊥
Hits rng (suc n) width height x y e =
    let (x₁, e₁) = rng.random_int 0 (width - 1) e in
    let (y₁, e₂) = rng.random_int 0 (height - 1) e₁ in
    ((x₁ ≡ x) × (y₁ ≡ y)) ⊎ Hits rng n width height x y e₂

-- From every state of the engine on, `n` pairs of draws bring up every cell.
abbrev pub IsFair : (rng : Random) → ℕ → ℕ → ℕ → Type 0
IsFair rng n width height =
    (x y : ℕ) (e : Random.Engine rng) → x < width → y < height → Hits rng n width height x y e

module _ (rng : Random) where
  open rng use {Engine, random_int}

  find_free-Hits :
      (n x y : ℕ) (b : Board) (e : Engine)
      → has_ball (read b (cell b (pos x) (pos y))).ball ≡ false
      → Hits rng n b.width b.height x y e
      → (r : (ℕ × ℕ) × Engine) × (find_free rng n b e ≡ some r)
  unfolding find_free
  find_free-Hits zero x y b e free h = absurd h
  find_free-Hits (suc n) x y b e free h =
      let (x₁, e₁) = random_int 0 (b.width - 1) e in
      let (y₁, e₂) = random_int 0 (b.height - 1) e₁ in
      elim (Bool-cases (has_ball (read b (cell b (pos x₁) (pos y₁))).ball)) [
        | inr here ↦ (((x₁, y₁), e₂), rw here refl)
        | inl busy ↦ elim h [
          | inl (same_x, same_y) ↦
              let here : has_ball (read b (cell b (pos x₁) (pos y₁))).ball ≡ false =
                rw (same_x, same_y) free in
              absurd (cc (busy, here))
          | inr later ↦ let (r, found) = find_free-Hits n x y b e₂ free later in (r, rw busy found)
        ]
      ]

  find_empty-Hits :
      (n x y : ℕ) (b : Board) (e : Engine)
      → is_empty (read b (cell b (pos x) (pos y))).kind ≡ true
      → Hits rng n b.width b.width x y e
      → (r : CellRef × Engine) × (find_empty rng n b e ≡ some r)
  unfolding find_empty
  find_empty-Hits zero x y b e empty h = absurd h
  find_empty-Hits (suc n) x y b e empty h =
      let (x₁, e₁) = random_int 0 (b.width - 1) e in
      let (y₁, e₂) = random_int 0 (b.width - 1) e₁ in
      elim (Bool-cases (is_empty (read b (cell b (pos x₁) (pos y₁))).kind)) [
        | inl here ↦ ((cell b (pos x₁) (pos y₁), e₂), rw here refl)
        | inr other ↦ elim h [
          | inl (same_x, same_y) ↦
              let here : is_empty (read b (cell b (pos x₁) (pos y₁))).kind ≡ true =
                rw (same_x, same_y) empty in
              absurd (cc (other, here))
          | inr later ↦
              let (r, found) = find_empty-Hits n x y b e₂ empty later in (r, rw other found)
        ]
      ]

  pub find_free-some :
      (fuel : ℕ) (b : Board) (e : Engine)
      → 1 ≤ b.width
      → length b.cells ≡ b.width * b.height
      → IsFair rng fuel b.width b.height
      → 1 ≤ free_cells b.cells
      → (r : (ℕ × ℕ) × Engine) × (find_free rng fuel b e ≡ some r)
  unfolding read
  find_free-some fuel b e wide sized fair h =
      let (j, lt, free) = some_free b.cells b.obstacle_cell h in
      let (x, y, hx, hy, at) = column_row b j b.height wide (omega arith) (omega (arith, sized)) in
      let there : has_ball (read b (cell b (pos x) (pos y))).ball ≡ false = rw at free in
      find_free-Hits fuel x y b e there (fair x y e hx hy)

  pub find_empty-some :
      (fuel rows : ℕ) (b : Board) (e : Engine)
      → 1 ≤ b.width
      → rows ≤ b.height
      → rows ≤ b.width
      → IsFair rng fuel b.width b.width
      → 1 ≤ empty_cells (rows * b.width) b.cells
      → (r : CellRef × Engine) × (find_empty rng fuel b e ≡ some r)
  unfolding read
  find_empty-some fuel rows b e wide le le' fair h =
      let (j, lt, empty) = some_empty (rows * b.width) b.cells b.obstacle_cell h in
      let (x, y, hx, hy, at) = column_row b j rows wide le lt in
      let there : is_empty (read b (cell b (pos x) (pos y))).kind ≡ true = rw at empty in
      find_empty-Hits fuel x y b e there (fair x y e hx (omega arith))
