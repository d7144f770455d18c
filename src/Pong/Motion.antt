-- ===== src/Pong/Motion.antt =====
-- pset6/pongboard.hh and the loops of pset6/simpong61.cc that call `move`: what holds of any number
-- of moves of any balls in any order.
use mathlib.Core.Path.{subst}
use cs61_f18_psets.Base.{
  ℕ, zero, suc, ◌+◌, ◌≤◌, ◌<◌, ◌≡◌, ◌≢◌, refl, sym, ap, ◌∙◌, Bool, true, false, Option, none, some,
  List, [], ◌∷◌, set, length, length-set, Bool-cases, get_or-set_self, get_or-set_ne, some-inj,
  ==_iff, inl, inr, arith, if◌then◌else◌,
}
use cs61_f18_psets.Base.Int.{ℤ, neg, eq_ℤ, eq_of_parts}
use cs61_f18_psets.Pong.Board.{CellRef, read, cell_sticky}
use cs61_f18_psets.Pong.Ball.{
  Ball, World, ball_of, no_ball, place, at_rest, collide_x, collide_y, collide, move,
}
use cs61_f18_psets.Pong.Invariant.{IsValid}
use cs61_f18_psets.Pong.Invariant.Keep.{Outcome, move-Outcome}

-- The calls of `move` that `ball_thread` and the single-threaded loop of `main` make, in the order
-- in which they are made; `none` is a failed assertion.
unfoldable pub run : World → List ℕ → Option World
run w [] = some w
run w (i ∷ is) = elim (move w i) [ none ↦ none | some (w', moved) ↦ run w' is ]

-- `for (auto ball : balls) ball->move();`, the balls from `i` on.
abbrev pub from : ℕ → ℕ → List ℕ
from i zero = []
from i (suc n) = i ∷ from (i + 1) n

unfoldable pub round : World → Option World
round w = run w (from 0 (length w.balls))

-- A known ball of a valid world moves without a failed assertion. The world stays valid; either the
-- ball advances by its direction as reflected at obstacles and no other ball changes, or the board
-- and all positions stay as they were.
pub move_total :
    (w : World) (i : ℕ)
    → IsValid w
    → i < length w.balls
    → (r : World × Bool) × (move w i ≡ some r) × Outcome w i r
move_total w i v h = move-Outcome w i v h

-- Two balls of a valid world are never in one place.
pub places_distinct :
    (w : World) (i j : ℕ)
    → IsValid w
    → i < length w.balls
    → j < length w.balls
    → (ball_of w.balls i).x ≡ (ball_of w.balls j).x
    → (ball_of w.balls i).y ≡ (ball_of w.balls j).y
    → i ≡ j
places_distinct w i j v hi hj ex ey = cc (v.owns i hi, v.owns j hj, ex, ey)

-- The calls name balls that there are.
abbrev pub Known : ℕ → List ℕ → Type 0
Known n [] = Unit {0}
Known n (i ∷ is) = (i < n) × Known n is

-- A world that moves have led to: valid, with as many balls, and no cell of another type.
pub record Later (w w' : World) : Type 0 where
  pub valid : IsValid w'
  pub count : length w'.balls ≡ length w.balls
  pub kinds : (r : CellRef) → (read w'.board r).kind ≡ (read w.board r).kind

Outcome-Later : (w : World) (i : ℕ) (r : World × Bool) → Outcome w i r → Later w r.0
Outcome-Later w i (w', true) (v, a) = record { valid = v; count = a.count; kinds = a.kinds }
Outcome-Later w i (w', false) (v, s) = record {
  valid = v;
  count = s.same_places.count;
  kinds = λ r. ap (λ b. (read b r).kind) s.same_board;
}

Known-count : (m n : ℕ) (is : List ℕ) → m ≡ n → Known m is → Known n is
Known-count m n [] e k = tt
Known-count m n (i ∷ is) e (h, k) = (omega arith, Known-count m n is e k)

-- Any sequence of moves of known balls runs to its end without a failed assertion and keeps the
-- world valid, the number of balls and the type of every cell.
pub run_total :
    (w : World) (is : List ℕ)
    → IsValid w
    → Known (length w.balls) is
    → (w' : World) × (run w is ≡ some w') × Later w w'
unfolding run
run_total w [] v k = (w, refl, record { valid = v; count = refl; kinds = λ r. refl })
run_total w (i ∷ is) v (h, k) =
    let (r, e, o) = move-Outcome w i v h in
    let first = Outcome-Later w i r o in
    let (w', e', l) = run_total r.0 is first.valid (Known-count _ _ is (sym first.count) k) in
    (
      w',
      rw (e, run) e',
      record {
        valid = l.valid;
        count = l.count ∙ first.count;
        kinds = λ s. l.kinds s ∙ first.kinds s;
      },
    )

Known-from : (i n m : ℕ) → i + n ≤ m → Known m (from i n)
Known-from i zero m h = tt
Known-from i (suc n) m h = (omega arith, Known-from (i + 1) n m (omega arith))

-- One round of the single-threaded loop over all balls of a valid world runs to its end, and leaves
-- a valid world with the same balls and cell types.
pub round_total : (w : World) → IsValid w → (w' : World) × (round w ≡ some w') × Later w w'
unfolding round
round_total w v = run_total w (from 0 (length w.balls)) v (Known-from 0 _ _ (omega arith))

-- What a collision of ball `i` with another ball `j` makes of the directions.
abbrev pub Exchanged : Ball → Ball → Ball → Ball → Type 0
Exchanged this hit this' hit' =
    (hit'.dx ≡ this.dx)
    × (hit'.dy ≡ this.dy)
    × (this'.dx ≡ (if eq_ℤ hit.dx this.dx then this.dx else neg this.dx))
    × (this'.dy ≡ (if eq_ℤ hit.dy this.dy then this.dy else neg this.dy))

eq_ℤ→eq : (a b : ℤ) → eq_ℤ a b ≡ true → a ≡ b
eq_ℤ→eq a b h = eq_of_parts a b (ground arith)

module _ (bs : List Ball) (i j : ℕ) (hi : i < length bs) (hj : j < length bs) (ne : i ≢ j) where
  -- Writes to ball `j`, then to ball `i`.
  two_writes :
      (p q : Ball)
      → (ball_of (set (set bs j p) i q) i ≡ q)
        × (ball_of (set (set bs j p) i q) j ≡ p)
        × (length (set (set bs j p) i q) ≡ length bs)
  two_writes p q = (
    get_or-set_self (set bs j p) i q no_ball (omega (arith, length-set bs j p)),
    get_or-set_ne (set bs j p) i j q no_ball ne ∙ get_or-set_self bs j p no_ball hj,
    length-set (set bs j p) i q ∙ length-set bs j p,
  )

  collide_x_lem :
      (ball_of (collide_x bs i j) i ≡ record (ball_of bs i) {
        dx =
            if eq_ℤ (ball_of bs j).dx (ball_of bs i).dx
            then (ball_of bs i).dx
            else neg (ball_of bs i).dx;
      })
      × (ball_of (collide_x bs i j) j ≡ record (ball_of bs j) { dx = (ball_of bs i).dx })
      × (length (collide_x bs i j) ≡ length bs)
  unfolding collide_x
  collide_x_lem = elim (Bool-cases (eq_ℤ (ball_of bs j).dx (ball_of bs i).dx)) [
    | inl e ↦ rw e (refl, ap (λ (d : ℤ). record (ball_of bs j) { dx = d }) (eq_ℤ→eq _ _ e), refl)
    | inr e ↦ rw e (two_writes _ _)
  ]

  collide_y_lem :
      (ball_of (collide_y bs i j) i ≡ record (ball_of bs i) {
        dy =
            if eq_ℤ (ball_of bs j).dy (ball_of bs i).dy
            then (ball_of bs i).dy
            else neg (ball_of bs i).dy;
      })
      × (ball_of (collide_y bs i j) j ≡ record (ball_of bs j) { dy = (ball_of bs i).dy })
      × (length (collide_y bs i j) ≡ length bs)
  unfolding collide_y
  collide_y_lem = elim (Bool-cases (eq_ℤ (ball_of bs j).dy (ball_of bs i).dy)) [
    | inl e ↦ rw e (refl, ap (λ (d : ℤ). record (ball_of bs j) { dy = d }) (eq_ℤ→eq _ _ e), refl)
    | inr e ↦ rw e (two_writes _ _)
  ]

-- In a collision of two different balls the ball that is hit takes the direction of the other one;
-- the other one turns round in each coordinate in which their directions differed.
pub collide-Exchanged :
    (bs : List Ball) (i j : ℕ)
    → i < length bs
    → j < length bs
    → i ≢ j
    → Exchanged
        (ball_of bs i)
        (ball_of bs j)
        (ball_of (collide bs i j) i)
        (ball_of (collide bs i j) j)
unfolding collide
collide-Exchanged bs i j hi hj ne =
    let first = collide_x_lem bs i j hi hj ne in
    let second =
      collide_y_lem (collide_x bs i j) i j (omega (arith, first.2)) (omega (arith, first.2)) ne in
    rw (second.0, second.1, first.0, first.1) (refl, refl, refl, refl)

move-at_rest :
    (w : World) (i : ℕ)
    → IsValid w
    → i < length w.balls
    → at_rest (ball_of w.balls i) ≡ true
    → move w i ≡ some (w, false)
unfolding move
move-at_rest w i v h e = rw (v.owns i h, (==_iff i i).1 refl, e, move)

stuck_rest :
    (w w' : World) (i : ℕ)
    → i < length w.balls
    → Outcome w i (w', true)
    → (read w'.board (place w'.board (ball_of w'.balls i))).kind ≡ cell_sticky
    → move w' i ≡ some (w', false)
stuck_rest w w' i h (v, a) s = move-at_rest w' i v (omega (arith, a.count)) (a.halts s)

-- A ball that has come to rest on a sticky cell returns `false` from its next move, which changes
-- nothing.
pub move_stuck :
    (w w' : World) (i : ℕ)
    → IsValid w
    → i < length w.balls
    → move w i ≡ some (w', true)
    → (read w'.board (place w'.board (ball_of w'.balls i))).kind ≡ cell_sticky
    → move w' i ≡ some (w', false)
move_stuck w w' i v h e s =
    let (r, e', o) = move-Outcome w i v h in
    stuck_rest w w' i h (subst (Outcome w i) (some-inj (sym e' ∙ e)) o) s
