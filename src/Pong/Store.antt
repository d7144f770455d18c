-- ===== src/Pong/Store.antt =====
-- Laws of the references to cells of pset6/pongboard.hh: what a write to `ball_` through one
-- reference shows through another, and that `cell` stays within `cells_`.
use native.Mathlib.Decide.{ℕ_discrete}
use cs61_f18_psets.Base.{
  ℕ, zero, suc, ◌+◌, ◌*◌, ◌<◌, ◌≡◌, refl, ap, ◌≢◌, Option, List, [], ◌∷◌, get_or, set, length,
  length-set, get_or-set_self, get_or-set_ne, arith,
}
use cs61_f18_psets.Base.Int.{ℤ, pos_part}
use cs61_f18_psets.Pong.Board.{
  Board, Cell, CellRef, off_board, element, InBounds, cell, read, set_ball,
}

pub CellRef-discrete : Discrete CellRef
CellRef-discrete = hlevel ℕ_discrete

kind-get_or-set :
    (cs : List Cell) (d e : Cell) (k j : ℕ) (p : Option ℕ)
    → (get_or (set cs k (record (get_or cs k d) { ball = p })) j e).kind ≡ (get_or cs j e).kind
kind-get_or-set [] d e k j p = refl
kind-get_or-set (c ∷ cs) d e zero zero p = refl
kind-get_or-set (c ∷ cs) d e zero (suc j) p = refl
kind-get_or-set (c ∷ cs) d e (suc k) zero p = refl
kind-get_or-set (c ∷ cs) d e (suc k) (suc j) p = kind-get_or-set cs d e k j p

get_or-default :
    {A : Type 0} (xs : List A) (i : ℕ) (d e : A) → i < length xs → get_or xs i d ≡ get_or xs i e
get_or-default [] i d e h = absurd (omega arith)
get_or-default (x ∷ xs) zero d e h = refl
get_or-default (x ∷ xs) (suc i) d e h = get_or-default xs i d e (omega arith)

kind-default :
    (cs : List Cell) (j : ℕ) (d e : Cell)
    → d.kind ≡ e.kind
    → (get_or cs j d).kind ≡ (get_or cs j e).kind
kind-default [] j d e h = h
kind-default (c ∷ cs) zero d e h = refl
kind-default (c ∷ cs) (suc j) d e h = kind-default cs j d e h

module _ (b : Board) (r : CellRef) (p : Option ℕ) where
  pub width-set_ball : (set_ball b r p).width ≡ b.width
  unfolding set_ball
  width-set_ball = ground arith

  pub height-set_ball : (set_ball b r p).height ≡ b.height
  unfolding set_ball
  height-set_ball = ground arith

  pub cell-set_ball : (x y : ℤ) → cell (set_ball b r p) x y ≡ cell b x y
  unfolding cell
  cell-set_ball x y = rw (width-set_ball, height-set_ball)

pub length-set_ball :
    (b : Board) (r : CellRef) (p : Option ℕ) → length (set_ball b r p).cells ≡ length b.cells
unfolding set_ball
length-set_ball b off_board p = refl
length-set_ball b (element k) p = length-set b.cells k _

pub InBounds-set_ball :
    (b : Board) (r : CellRef) (p : Option ℕ) (s : CellRef)
    → InBounds b s
    → InBounds (set_ball b r p) s
InBounds-set_ball b r p off_board h = tt
InBounds-set_ball b r p (element k) h = omega (arith, length-set_ball b r p)

-- A write to `ball_` leaves the type of every cell alone.
pub kind-set_ball :
    (b : Board) (r : CellRef) (p : Option ℕ) (s : CellRef)
    → (read (set_ball b r p) s).kind ≡ (read b s).kind
unfolding set_ball
kind-set_ball b off_board p off_board = refl
kind-set_ball b off_board p (element j) = kind-default b.cells j _ _ refl
kind-set_ball b (element k) p off_board = refl
kind-set_ball b (element k) p (element j) = kind-get_or-set b.cells _ _ k j p

pub ball-set_ball_self :
    (b : Board) (r : CellRef) (p : Option ℕ) → InBounds b r → (read (set_ball b r p) r).ball ≡ p
unfolding set_ball
ball-set_ball_self b off_board p h = refl
ball-set_ball_self b (element k) p h = ap (λ (c : Cell). c.ball) (get_or-set_self b.cells k _ _ h)

pub ball-set_ball_ne :
    (b : Board) (r : CellRef) (p : Option ℕ) (s : CellRef)
    → r ≢ s
    → InBounds b s
    → (read (set_ball b r p) s).ball ≡ (read b s).ball
unfolding set_ball
ball-set_ball_ne b off_board p off_board ne h = absurd (ne refl)
ball-set_ball_ne b off_board p (element j) ne h =
    ap (λ (c : Cell). c.ball) (get_or-default b.cells j _ _ h)
ball-set_ball_ne b (element k) p off_board ne h = refl
ball-set_ball_ne b (element k) p (element j) ne h =
    ap (λ (c : Cell). c.ball) (get_or-set_ne b.cells k j _ _ (λ e. ne (ap element e)))

row_major : (r c w h : ℕ) → r < h → c < w → r * w + c < h * w
row_major r c w h p q = grind arith

-- `cell` never leaves the vector.
pub cell-InBounds :
    (b : Board) (x y : ℤ) → length b.cells ≡ b.width * b.height → InBounds b (cell b x y)
unfolding cell
cell-InBounds b x y h = ground (arith, row_major (pos_part y) (pos_part x) b.width b.height)

pub edge-set_ball :
    (b : Board) (r : CellRef) (q : Option ℕ)
    → r ≢ off_board
    → (set_ball b r q).obstacle_cell ≡ b.obstacle_cell
unfolding set_ball
edge-set_ball b off_board q ne = absurd (ne refl)
edge-set_ball b (element k) q ne = refl

pub read-edge : (b : Board) → read b off_board ≡ b.obstacle_cell
unfolding read
read-edge b = refl
