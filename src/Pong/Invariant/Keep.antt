-- ===== src/Pong/Invariant/Keep.antt =====
-- pset6/pongboard.hh: what one `move` does to the invariant, to the cells and to the other balls.
use cs61_f18_psets.Base.{
  ◌∙◌, ℕ, ◌<◌, ◌≡◌, ◌≢◌, refl, sym, ap, Bool, true, false, none, some, List, set, length,
  length-set, Bool-cases, Option-cases, get_or-set_self, get_or-set_ne, ◌==◌, if◌then◌else◌, inl,
  inr, arith,
}
use cs61_f18_psets.Base.Int.{pos, ◌+ℤ◌}
use cs61_f18_psets.Pong.Board.{
  Board, CellRef, cell, read, set_ball, cell_obstacle, is_obstacle, cell_sticky, is_sticky,
}
use cs61_f18_psets.Pong.Ball.{
  Ball, World, ball_of, no_ball, place, at_rest, reflect, advance, enter, move,
}
use cs61_f18_psets.Pong.Invariant.Steer.{
  IsValid, SamePlaces, set-SamePlaces, SamePlaces-refl, SamePlaces-trans, collide-SamePlaces,
  steer-IsValid,
}
use cs61_f18_psets.Pong.Invariant.Advance.{Entry, entered-IsValid, moved-kind, place_self}

-- A ball that a `move` has not advanced: the board is as it was and every ball stays in place.
pub record Stayed (w w' : World) : Type 0 where
  pub same_board : w'.board ≡ w.board
  pub same_places : SamePlaces w.balls w'.balls

-- A ball that a `move` has advanced by its direction, reflected at obstacles: every other ball is
-- as it was, the ball stops if its new cell is sticky and else keeps its direction.
pub record Advanced (w w' : World) (i : ℕ) : Type 0 where
  pub to_x :
      (ball_of w'.balls i).x ≡ (ball_of w.balls i).x +ℤ (reflect w.board (ball_of w.balls i)).dx
  pub to_y :
      (ball_of w'.balls i).y ≡ (ball_of w.balls i).y +ℤ (reflect w.board (ball_of w.balls i)).dy
  pub others : (k : ℕ) → k ≢ i → ball_of w'.balls k ≡ ball_of w.balls k
  pub count : length w'.balls ≡ length w.balls
  pub kinds : (r : CellRef) → (read w'.board r).kind ≡ (read w.board r).kind
  pub halts :
      (read w'.board (place w'.board (ball_of w'.balls i))).kind ≡ cell_sticky
      → at_rest (ball_of w'.balls i) ≡ true
  pub goes_on :
      is_sticky (read w'.board (place w'.board (ball_of w'.balls i))).kind ≡ false
      → ((ball_of w'.balls i).dx ≡ (reflect w.board (ball_of w.balls i)).dx)
        × ((ball_of w'.balls i).dy ≡ (reflect w.board (ball_of w.balls i)).dy)

-- What `move` returns: the new world, and whether the ball moved.
abbrev pub Outcome : World → ℕ → World × Bool → Type 0
Outcome w i (w', true) = IsValid w' × Advanced w w' i
Outcome w i (w', false) = IsValid w' × Stayed w w'

obstacle_kind :
    (w : World) (r : CellRef)
    → (read w.board r).kind ≡ cell_obstacle
    → is_obstacle (read w.board r).kind ≡ true
obstacle_kind w r e = rw e

==-self : (i : ℕ) → (i == i) ≡ true
==-self i = ground arith

module _ (w : World) (i : ℕ) (v : IsValid w) (h : i < length w.balls) where
  abbrev this : Ball
  this = reflect w.board (ball_of w.balls i)

  abbrev cur : CellRef
  cur = place w.board (ball_of w.balls i)

  abbrev next : CellRef
  next = cell w.board (this.x +ℤ this.dx) (this.y +ℤ this.dy)

  steered : (bs : List Ball) → SamePlaces w.balls bs → Outcome w i (record w { balls = bs }, false)
  steered bs s = (steer-IsValid w bs v s, record { same_board = refl; same_places = s })

  turned :
      (p : Ball)
      → p.x ≡ (ball_of w.balls i).x
      → p.y ≡ (ball_of w.balls i).y
      → SamePlaces w.balls (set w.balls i p)
  turned p = set-SamePlaces w.balls i p

  advanced :
      (read w.board next).ball ≡ none
      → (read w.board next).kind ≢ cell_obstacle
      → Outcome w i (advance w i this cur next, true)
  unfolding advance reflect
  advanced free clear = (
    entered-IsValid entry _ refl refl,
    record {
      to_x = ap (λ (q : Ball). q.x) (get_or-set_self w.balls i _ no_ball h);
      to_y = ap (λ (q : Ball). q.y) (get_or-set_self w.balls i _ no_ball h);
      others = λ k ne. get_or-set_ne w.balls i k _ no_ball (λ e. ne (sym e));
      count = length-set w.balls i _;
      kinds = moved-kind entry;
      halts = λ s. rw (get_or-set_self w.balls i stopped no_ball h, sticky s);
      goes_on = λ s. rw (get_or-set_self w.balls i stopped no_ball h, going s) (refl, refl);
    },
  )
    where
      board : Board
      board = set_ball (set_ball w.board cur none) next (some i)

      stuck : Bool
      stuck = is_sticky (read board next).kind

      stopped : Ball
      stopped = record {
        x = this.x +ℤ this.dx;
        y = this.y +ℤ this.dy;
        dx = if stuck then pos 0 else this.dx;
        dy = if stuck then pos 0 else this.dy;
      }

      entry : Entry w i this cur next
      entry = record { valid = v; known = h; here = refl; there = refl; free = free; clear = clear }

      sticky :
          (read board (place board (ball_of (set w.balls i stopped) i))).kind ≡ cell_sticky
          → stuck ≡ true
      sticky s =
          ap is_sticky
            (ap (λ r. (read board r).kind) (sym (place_self entry stopped refl refl)) ∙ s)

      going :
          is_sticky (read board (place board (ball_of (set w.balls i stopped) i))).kind ≡ false
          → stuck ≡ false
      going s =
          ap (λ r. is_sticky (read board r).kind) (sym (place_self entry stopped refl refl)) ∙ s

  reflected : SamePlaces w.balls (set w.balls i this)
  unfolding reflect
  reflected = turned this refl refl

  enter-Outcome : Outcome w i (enter w i this cur)
  unfolding enter reflect
  enter-Outcome = elim (Option-cases (read w.board next).ball) [
    | inr (j, e) ↦
        rw (e, enter)
          (steered _
            (SamePlaces-trans w.balls _ _ reflected (collide-SamePlaces (set w.balls i this) i j)))
    | inl free ↦ elim (Bool-cases (is_obstacle (read w.board next).kind)) [
      | inl e ↦ rw (free, e, enter) (steered _ (turned _ refl refl))
      | inr e ↦ rw (free, e, enter) (advanced free (λ o. cc (e, obstacle_kind w next o)))
    ]
  ]

  pub move-Outcome : (r : World × Bool) × (move w i ≡ some r) × Outcome w i r
  unfolding move
  move-Outcome = elim (Bool-cases (at_rest (ball_of w.balls i))) [
    | inl e ↦
        ((w, false), rw (v.owns i h, ==-self i, e, move), steered w.balls (SamePlaces-refl w.balls))
    | inr e ↦ (enter w i this cur, rw (v.owns i h, ==-self i, e, move), enter-Outcome)
  ]
