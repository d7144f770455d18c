-- ===== src/Pong/Invariant/Steer.antt =====
-- The invariant of pset6/pongboard.hh, and the branches of `move` that change only directions.
use cs61_f18_psets.Base.{
  ℕ, zero, suc, ◌*◌, ◌<◌, ◌≡◌, refl, sym, ◌∙◌, none, some, List, [], ◌∷◌, set, length, length-set,
  Bool-cases, inl, inr, arith,
}
use cs61_f18_psets.Base.Int.{eq_ℤ}
use cs61_f18_psets.Pong.Board.{CellRef, InBounds, read, cell_obstacle}
use cs61_f18_psets.Pong.Ball.{Ball, World, ball_of, place, collide_x, collide_y, collide}

-- Each ball's cell points to the ball, and a cell that points to a ball is that ball's cell. The
-- cell for off-board positions is an obstacle and never holds a ball.
pub record IsValid (w : World) : Type 0 where
  pub sized : length w.board.cells ≡ w.board.width * w.board.height
  pub edge : w.board.obstacle_cell ≡ record { kind = cell_obstacle; ball = none }
  pub owns :
      (i : ℕ)
      → i < length w.balls
      → (read w.board (place w.board (ball_of w.balls i))).ball ≡ some i
  pub back :
      (r : CellRef) (i : ℕ)
      → InBounds w.board r
      → (read w.board r).ball ≡ some i
      → (i < length w.balls) × (place w.board (ball_of w.balls i) ≡ r)

-- Two lists of balls in the same positions; their directions may differ.
pub record SamePlaces (bs cs : List Ball) : Type 0 where
  pub count : length cs ≡ length bs
  pub same_x : (k : ℕ) → (ball_of cs k).x ≡ (ball_of bs k).x
  pub same_y : (k : ℕ) → (ball_of cs k).y ≡ (ball_of bs k).y

pub SamePlaces-refl : (bs : List Ball) → SamePlaces bs bs
SamePlaces-refl bs = record { count = refl; same_x = λ k. refl; same_y = λ k. refl }

pub SamePlaces-trans :
    (zs bs cs : List Ball) → SamePlaces zs bs → SamePlaces bs cs → SamePlaces zs cs
SamePlaces-trans zs bs cs p q = record {
  count = q.count ∙ p.count;
  same_x = λ k. q.same_x k ∙ p.same_x k;
  same_y = λ k. q.same_y k ∙ p.same_y k;
}

set-x :
    (bs : List Ball) (i k : ℕ) (q : Ball)
    → q.x ≡ (ball_of bs i).x
    → (ball_of (set bs i q) k).x ≡ (ball_of bs k).x
set-x [] i k q h = refl
set-x (b ∷ bs) zero zero q h = h
set-x (b ∷ bs) zero (suc k) q h = refl
set-x (b ∷ bs) (suc i) zero q h = refl
set-x (b ∷ bs) (suc i) (suc k) q h = set-x bs i k q h

set-y :
    (bs : List Ball) (i k : ℕ) (q : Ball)
    → q.y ≡ (ball_of bs i).y
    → (ball_of (set bs i q) k).y ≡ (ball_of bs k).y
set-y [] i k q h = refl
set-y (b ∷ bs) zero zero q h = h
set-y (b ∷ bs) zero (suc k) q h = refl
set-y (b ∷ bs) (suc i) zero q h = refl
set-y (b ∷ bs) (suc i) (suc k) q h = set-y bs i k q h

pub set-SamePlaces :
    (bs : List Ball) (i : ℕ) (q : Ball)
    → q.x ≡ (ball_of bs i).x
    → q.y ≡ (ball_of bs i).y
    → SamePlaces bs (set bs i q)
set-SamePlaces bs i q hx hy = record {
  count = length-set bs i q;
  same_x = λ k. set-x bs i k q hx;
  same_y = λ k. set-y bs i k q hy;
}

-- Two writes, where the second keeps the position that ball `i` had before both.
set_two :
    (bs : List Ball) (i j : ℕ) (p q : Ball)
    → p.x ≡ (ball_of bs j).x
    → p.y ≡ (ball_of bs j).y
    → q.x ≡ (ball_of bs i).x
    → q.y ≡ (ball_of bs i).y
    → SamePlaces bs (set (set bs j p) i q)
set_two bs i j p q px py qx qy =
    let first = set-SamePlaces bs j p px py in
    SamePlaces-trans bs (set bs j p) _ first
      (set-SamePlaces (set bs j p) i q (qx ∙ sym (first.same_x i)) (qy ∙ sym (first.same_y i)))

pub collide_x-SamePlaces : (bs : List Ball) (i j : ℕ) → SamePlaces bs (collide_x bs i j)
unfolding collide_x
collide_x-SamePlaces bs i j = elim (Bool-cases (eq_ℤ (ball_of bs j).dx (ball_of bs i).dx)) [
  | inl e ↦ rw e (SamePlaces-refl bs)
  | inr e ↦ rw e (set_two bs i j _ _ refl refl refl refl)
]

pub collide_y-SamePlaces : (bs : List Ball) (i j : ℕ) → SamePlaces bs (collide_y bs i j)
unfolding collide_y
collide_y-SamePlaces bs i j = elim (Bool-cases (eq_ℤ (ball_of bs j).dy (ball_of bs i).dy)) [
  | inl e ↦ rw e (SamePlaces-refl bs)
  | inr e ↦ rw e (set_two bs i j _ _ refl refl refl refl)
]

-- A collision moves no ball.
pub collide-SamePlaces : (bs : List Ball) (i j : ℕ) → SamePlaces bs (collide bs i j)
unfolding collide
collide-SamePlaces bs i j =
    SamePlaces-trans bs (collide_x bs i j) _ (collide_x-SamePlaces bs i j)
      (collide_y-SamePlaces (collide_x bs i j) i j)

-- A change of directions keeps the invariant.
pub steer-IsValid :
    (w : World) (bs : List Ball)
    → IsValid w
    → SamePlaces w.balls bs
    → IsValid (record w { balls = bs })
steer-IsValid w bs v s = record {
  sized = v.sized;
  edge = v.edge;
  owns = λ i h. rw (s.same_x i, s.same_y i) (v.owns i (omega (arith, s.count)));
  back = λ r i b e.
      let (lt, at) = v.back r i b e in (omega (arith, s.count), rw (s.same_x i, s.same_y i) at);
}
