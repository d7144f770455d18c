-- ===== src/Pong/Settled.antt =====
-- pset6/simpong61.cc: what `main` has set up before the balls move, and the size of what
-- `signal_handler` writes.
use mathlib.Core.Path.{subst}
use cs61_f18_psets.Base.{
  some-inj, ℕ, zero, suc, ◌+◌, ◌-◌, ◌≤◌, ◌<◌, ◌≡◌, ◌≢◌, refl, sym, ap, ◌∙◌, true, false, none, some,
  List, [], ◌∷◌, get_or, set, length, length-set, length-append, Option-cases, inl, inr, arith,
}
use cs61_f18_psets.Base.Int.{ℤ, pos}
use cs61_f18_psets.Pong.Board.{
  Board, Cell, CellType, CellRef, off_board, element, InBounds, cell, read, cell_sticky, new_board,
}
use cs61_f18_psets.Pong.Ball.{World, ball_of, place, new_ball}
use cs61_f18_psets.Pong.Store.{read-edge, width-set_ball, height-set_ball}
use cs61_f18_psets.Pong.Invariant.{IsValid}
use cs61_f18_psets.Pong.Motion.{round, round_total}
use cs61_f18_psets.Pong.Setup.{new_board-IsValid, new_ball-IsValid}
use cs61_f18_psets.Pong.Simulation.{
  Random, set_kind, find_empty, place_sticky, find_free, place_balls, set_up, direction, is_empty,
}

ball-get_or-set :
    (cs : List Cell) (d : Cell) (k j : ℕ) (t : CellType)
    → (get_or (set cs k (record (get_or cs k d) { kind = t })) j d).ball ≡ (get_or cs j d).ball
ball-get_or-set [] d k j t = refl
ball-get_or-set (c ∷ cs) d zero zero t = refl
ball-get_or-set (c ∷ cs) d zero (suc j) t = refl
ball-get_or-set (c ∷ cs) d (suc k) zero t = refl
ball-get_or-set (c ∷ cs) d (suc k) (suc j) t = ball-get_or-set cs d k j t

ball-set_kind :
    (b : Board) (k : ℕ) (t : CellType) (s : CellRef)
    → (read (set_kind b (element k) t) s).ball ≡ (read b s).ball
unfolding set_kind
ball-set_kind b k t off_board = refl
ball-set_kind b k t (element j) = ball-get_or-set b.cells b.obstacle_cell k j t

InBounds-set_kind :
    (b : Board) (k : ℕ) (t : CellType) (s : CellRef)
    → InBounds (set_kind b (element k) t) s
    → InBounds b s
unfolding set_kind
InBounds-set_kind b k t off_board h = tt
InBounds-set_kind b k t (element j) h = omega (arith, length-set b.cells k _)

cell-set_kind :
    (b : Board) (k : ℕ) (t : CellType) (x y : ℤ) → cell (set_kind b (element k) t) x y ≡ cell b x y
unfolding set_kind cell
cell-set_kind b k t x y = refl

-- A change of the type of a cell on the board keeps the world valid.
set_kind-IsValid :
    (w : World) (r : CellRef) (t : CellType)
    → r ≢ off_board
    → IsValid w
    → IsValid (record w { board = set_kind w.board r t })
unfolding set_kind
set_kind-IsValid w off_board t ne v = absurd (ne refl)
set_kind-IsValid w (element k) t ne v = record {
  sized = length-set w.board.cells k _ ∙ v.sized;
  edge = v.edge;
  owns = λ i h.
      rw (cell-set_kind w.board k t (ball_of w.balls i).x (ball_of w.balls i).y)
        (ball-set_kind w.board k t (place w.board (ball_of w.balls i)) ∙ v.owns i h);
  back = λ r i b e.
      let (h, at) =
        v.back r i (InBounds-set_kind w.board k t r b) (sym (ball-set_kind w.board k t r) ∙ e) in
      (h, cell-set_kind w.board k t (ball_of w.balls i).x (ball_of w.balls i).y ∙ at);
}

edge-not-empty : (w : World) → IsValid w → is_empty (read w.board off_board).kind ≡ false
edge-not-empty w v = rw (read-edge w.board, v.edge)

pub width-set_kind : (b : Board) (r : CellRef) (t : CellType) → (set_kind b r t).width ≡ b.width
unfolding set_kind
width-set_kind b off_board t = refl
width-set_kind b (element k) t = refl

pub height-set_kind : (b : Board) (r : CellRef) (t : CellType) → (set_kind b r t).height ≡ b.height
unfolding set_kind
height-set_kind b off_board t = refl
height-set_kind b (element k) t = refl

pub width-new_ball :
    (w : World) (x y dx dy : ℤ) → (new_ball w x y dx dy).board.width ≡ w.board.width
unfolding new_ball
width-new_ball w x y dx dy = width-set_ball w.board _ _

pub height-new_ball :
    (w : World) (x y dx dy : ℤ) → (new_ball w x y dx dy).board.height ≡ w.board.height
unfolding new_ball
height-new_ball w x y dx dy = height-set_ball w.board _ _

count-new_ball :
    (w : World) (x y dx dy : ℤ) → length (new_ball w x y dx dy).balls ≡ length w.balls + 1
unfolding new_ball
count-new_ball w x y dx dy = length-append w.balls _

on_board : (b : Board) (x y : ℕ) → x < b.width → y < b.height → cell b (pos x) (pos y) ≢ off_board
unfolding cell
on_board b x y hx hy = ground arith

module _ (rng : Random) where
  open rng use {Engine, random_int, in_range}

  find_empty-is_empty :
      (fuel : ℕ) (b : Board) (e e' : Engine) (r : CellRef)
      → find_empty rng fuel b e ≡ some (r, e')
      → is_empty (read b r).kind ≡ true
  unfolding find_empty
  find_empty-is_empty zero b e e' r h = absurd (cc)
  find_empty-is_empty (suc fuel) b e e' r h =
      let (x, e₁) = random_int 0 (b.width - 1) e in
      let (y, e₂) = random_int 0 (b.width - 1) e₁ in
      ground (arith, find_empty-is_empty fuel b e₂ e' r)

  place_sticky-IsValid :
      (fuel n : ℕ) (b b' : Board) (e e' : Engine)
      → IsValid (record { board = b; balls = [] })
      → place_sticky rng fuel n b e ≡ some (b', e')
      → IsValid (record { board = b'; balls = [] }) × (b'.width ≡ b.width) × (b'.height ≡ b.height)
  unfolding place_sticky
  place_sticky-IsValid fuel zero b b' e e' v h =
      let same : b ≡ b' = ap (λ (q : Board × Engine). q.0) (some-inj h) in
      subst
        (λ c.
          IsValid (record { board = c; balls = [] }) × (c.width ≡ b.width) × (c.height ≡ b.height))
        same (v, refl, refl)
  place_sticky-IsValid fuel (suc n) b b' e e' v h = elim (Option-cases (find_empty rng fuel b e)) [
    | inl no_cell ↦ absurd (cc (rw (no_cell, place_sticky) at h))
    | inr ((r, e₁), found) ↦
        let next = rw (found, place_sticky) at h in
        let clear = find_empty-is_empty fuel b e e₁ r found in
        let on : r ≢ off_board = λ o. cc (clear, edge-not-empty _ v, o) in
        let (v', hw, hh) =
          place_sticky-IsValid fuel n (set_kind b r cell_sticky) b' e₁ e'
            (set_kind-IsValid (record { board = b; balls = [] }) r cell_sticky on v) next in
        (v', hw ∙ width-set_kind b r cell_sticky, hh ∙ height-set_kind b r cell_sticky)
  ]

  find_free-lem :
      (fuel : ℕ) (b : Board) (e e' : Engine) (x y : ℕ)
      → 1 ≤ b.width
      → 1 ≤ b.height
      → find_free rng fuel b e ≡ some ((x, y), e')
      → (x < b.width) × (y < b.height) × ((read b (cell b (pos x) (pos y))).ball ≡ none)
  unfolding find_free
  find_free-lem zero b e e' x y hw hh h = absurd (cc)
  find_free-lem (suc fuel) b e e' x y hw hh h =
      let (x₁, e₁) = random_int 0 (b.width - 1) e in
      let (y₁, e₂) = random_int 0 (b.height - 1) e₁ in
      ground (
        arith,
        in_range 0 (b.width - 1) e,
        in_range 0 (b.height - 1) e₁,
        find_free-lem fuel b e₂ e' x y hw hh,
      )

  -- The loop that places the balls keeps the world valid and adds exactly as many balls as asked.
  place_balls-IsValid :
      (fuel n : ℕ) (w w' : World) (e e' : Engine)
      → 1 ≤ w.board.width
      → 1 ≤ w.board.height
      → IsValid w
      → place_balls rng fuel n w e ≡ some (w', e')
      → IsValid w' × (length w'.balls ≡ length w.balls + n)
  unfolding place_balls
  place_balls-IsValid fuel zero w w' e e' hw hh v h =
      let same : w ≡ w' = ap (λ (q : World × Engine). q.0) (some-inj h) in
      subst (λ u. IsValid u × (length u.balls ≡ length w.balls + 0)) same (v, omega arith)
  place_balls-IsValid fuel (suc n) w w' e e' hw hh v h =
      elim (Option-cases (find_free rng fuel w.board e)) [
        | inl no_cell ↦ absurd (cc (rw (no_cell, place_balls) at h))
        | inr (((x, y), e₀), found) ↦
            let next = rw (found, place_balls) at h in
            let (hx, hy, free) = find_free-lem fuel w.board e e₀ x y hw hh found in
            let (rx, e₁) = random_int 0 1 e₀ in
            let (ry, e₂) = random_int 0 1 e₁ in
            let u = new_ball w (pos x) (pos y) (direction rx) (direction ry) in
            let (v', count) =
              place_balls-IsValid fuel n u w' e₂ e'
                (rw (width-new_ball w (pos x) (pos y) (direction rx) (direction ry)) hw)
                (rw (height-new_ball w (pos x) (pos y) (direction rx) (direction ry)) hh)
                (new_ball-IsValid w _ _ _ _ v (on_board w.board x y hx hy) free) next in
            (
              v',
              omega (arith, count, count-new_ball w (pos x) (pos y) (direction rx) (direction ry)),
            )
      ]

-- If `main`'s loops end, the world they leave is valid and has exactly `nballs` balls, and a round
-- of moves of all its balls runs to its end without a failed assertion.
pub set_up-IsValid :
    (rng : Random) (fuel width height nballs nsticky : ℕ) (e e' : Random.Engine rng) (w : World)
    → 1 ≤ width
    → 1 ≤ height
    → set_up rng fuel width height nballs nsticky e ≡ some (w, e')
    → IsValid w × (length w.balls ≡ nballs) × ((w' : World) × (round w ≡ some w'))
unfolding set_up new_board
set_up-IsValid rng fuel width height nballs nsticky e e' w hw hh h =
    elim (Option-cases (place_sticky rng fuel nsticky (new_board width height) e)) [
      | inl no_cell ↦ absurd (cc (rw (no_cell, set_up) at h))
      | inr ((b, e₁), found) ↦
          let next = rw (found, set_up) at h in
          let (v, bw, bh) =
            place_sticky-IsValid rng fuel nsticky (new_board width height) b e e₁
              (new_board-IsValid width height) found in
          let (v', count) =
            place_balls-IsValid rng fuel nballs (record { board = b; balls = [] }) w e₁ e'
              (omega arith) (omega arith) v next in
          let (w', ran, _) = round_total w v' in (v', omega arith, (w', ran))
    ]
