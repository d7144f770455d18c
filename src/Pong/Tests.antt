-- ===== src/Pong/Tests.antt =====
-- Runs of the pong model on small boards.
use cs61_f18_psets.Base.{
  ℕ, zero, suc, inl, inr, ◌+◌, ◌-◌, ◌%◌, ◌≤◌, ◌≡◌, ◌≢◌, refl, Bool, true, Option, none, some, [],
  ◌∷◌, length, arith,
}
use cs61_f18_psets.Base.Int.{pos, negsuc, ◌+ℤ◌, neg}
use cs61_f18_psets.Pong.Board.{
  Board, off_board, element, cell, read, new_board, cell_empty, cell_sticky, cell_obstacle,
  empty_cell, set_ball,
}
use cs61_f18_psets.Pong.Ball.{
  World, ball_of, place, new_ball, move, enter, reflect, advance, collide,
}
use cs61_f18_psets.Pong.Setup.{new_ball-IsValid}
use cs61_f18_psets.Pong.Simulation.{
  Random, set_up, set_kind, find_empty, find_free, place_sticky, place_balls, picture, picture_row,
  picture_line,
}
use cs61_f18_psets.Pong.Invariant.{IsValid}
use cs61_f18_psets.Pong.Invariant.Keep.{Outcome}
use cs61_f18_psets.Pong.Motion.{
  run, round, Later, Exchanged, move_total, run_total, collide-Exchanged,
}
use cs61_f18_psets.Pong.Settled.{set_up-IsValid}
use cs61_f18_psets.Pong.Fair.{IsFair}
use cs61_f18_psets.Pong.SetUp.{set_up_total}

counter_in_range :
    (lo hi e : ℕ) → lo ≤ hi → (lo ≤ lo + e % (hi - lo + 1)) × (lo + e % (hi - lo + 1) ≤ hi)
counter_in_range lo hi e h = grind arith

-- A generator that counts.
abbrev counter : Random
counter = record {
  Engine = ℕ;
  random_int = λ lo hi e. (lo + e % (hi - lo + 1), e + 1);
  in_range = counter_in_range;
}

-- A board of 3 by 2 with a sticky cell in the corner below the origin.
abbrev board : Option ℕ → Option ℕ → Option ℕ → Board
board a b c = record {
  width = 3;
  height = 2;
  cells =
      empty_cell
      ∷ record { kind = cell_empty; ball = a }
      ∷ empty_cell
      ∷ record { kind = cell_sticky; ball = b }
      ∷ empty_cell
      ∷ record { kind = cell_empty; ball = c }
      ∷ [];
  obstacle_cell = record { kind = cell_obstacle; ball = none };
}

abbrev started : World
started = record {
  board = board none (some 1) (some 0);
  balls =
      record { x = pos 2; y = pos 1; dx = negsuc 0; dy = pos 1 }
      ∷ record { x = pos 0; y = pos 1; dx = negsuc 0; dy = pos 1 }
      ∷ [];
}

set_up_run : set_up counter 9 3 2 2 1 0 ≡ some (started, 10)
unfolding set_up place_sticky find_empty place_balls find_free read cell new_board set_kind new_ball
    set_ball
set_up_run = refl

started-IsValid : IsValid started
started-IsValid =
    (set_up-IsValid counter 9 3 2 2 1 0 10 started (omega arith) (omega arith) set_up_run).0

abbrev sticky_only : World
sticky_only = record { board = board none none none; balls = [] }

sticky_run : set_up counter 9 3 2 0 1 0 ≡ some (sticky_only, 2)
unfolding set_up place_sticky find_empty place_balls read cell new_board set_kind
sticky_run = refl

sticky_only-IsValid : IsValid sticky_only
sticky_only-IsValid =
    (set_up-IsValid counter 9 3 2 0 1 0 2 sticky_only (omega arith) (omega arith) sticky_run).0

-- One ball that heads for the sticky cell.
abbrev heading : World
heading = record {
  board = board (some 0) none none;
  balls = record { x = pos 1; y = pos 0; dx = negsuc 0; dy = pos 1 } ∷ [];
}

heading-new_ball : new_ball sticky_only (pos 1) (pos 0) (negsuc 0) (pos 1) ≡ heading
unfolding new_ball cell set_ball
heading-new_ball = refl

free_here : (read sticky_only.board (cell sticky_only.board (pos 1) (pos 0))).ball ≡ none
unfolding read cell
free_here = refl

on_the_board : cell sticky_only.board (pos 1) (pos 0) ≢ off_board
unfolding cell
on_the_board = λ e. cc e

heading-IsValid : IsValid heading
heading-IsValid = rw heading-new_ball at (
    new_ball-IsValid sticky_only (pos 1) (pos 0) (negsuc 0) (pos 1) sticky_only-IsValid on_the_board
      free_here)

abbrev stopped : World
stopped = record {
  board = board none (some 0) none;
  balls = record { x = pos 0; y = pos 1; dx = pos 0; dy = pos 0 } ∷ [];
}

heading_moves : move heading 0 ≡ some (stopped, true)
unfolding move enter reflect advance set_ball cell ◌+ℤ◌ neg
heading_moves = refl

stopped_sticky :
    (read stopped.board (place stopped.board (ball_of stopped.balls 0))).kind ≡ cell_sticky
unfolding read cell
stopped_sticky = refl

move_total_example : (r : World × Bool) × (move started 0 ≡ some r) × Outcome started 0 r
move_total_example = move_total started 0 started-IsValid (omega arith)

run_total_example : (w : World) × (run started (0 ∷ 1 ∷ 1 ∷ 0 ∷ []) ≡ some w) × Later started w
run_total_example = run_total started (0 ∷ 1 ∷ 1 ∷ 0 ∷ []) started-IsValid (omega arith)

collide-Exchanged_example :
    Exchanged
      (ball_of started.balls 0)
      (ball_of started.balls 1)
      (ball_of (collide started.balls 0 1) 0)
      (ball_of (collide started.balls 0 1) 1)
collide-Exchanged_example =
    collide-Exchanged started.balls 0 1 (omega arith) (omega arith) (omega arith)

picture_run : picture_line 8192 started.board 1 ≡ b'O' ∷ b'.' ∷ b'O' ∷ 10 ∷ []
unfolding picture_line picture_row picture read cell
picture_run = refl

abbrev tall : Board
tall = record (board none none none) { width = 2; height = 3 }

tall_run : place_sticky counter 9 1 tall 1 ≡ some (set_kind tall (element 1) cell_sticky, 3)
unfolding place_sticky find_empty read cell
tall_run = refl

-- A generator with eight states, whose pairs of bits come up in turn from each of them.
data Phase : Type 0 where
  s0 s1 s2 s3 s4 s5 s6 s7 : Phase

abbrev bit : Phase → ℕ
bit s0 = 0
bit s1 = 0
bit s2 = 0
bit s3 = 1
bit s4 = 1
bit s5 = 0
bit s6 = 1
bit s7 = 1

abbrev next_phase : Phase → Phase
next_phase s0 = s1
next_phase s1 = s2
next_phase s2 = s3
next_phase s3 = s4
next_phase s4 = s5
next_phase s5 = s6
next_phase s6 = s7
next_phase s7 = s0

abbrev turning : Random
turning = record {
  Engine = Phase;
  random_int = λ lo hi e. (lo + bit e % (hi - lo + 1), next_phase e);
  in_range = λ lo hi e h. counter_in_range lo hi (bit e) h;
}

turning-IsFair : IsFair turning 4 2 2
turning-IsFair zero zero s0 hx hy = inl (refl, refl)
turning-IsFair zero zero s1 hx hy = inl (refl, refl)
turning-IsFair zero zero s2 hx hy = inr (inr (inr (inl (refl, refl))))
turning-IsFair zero zero s3 hx hy = inr (inr (inr (inl (refl, refl))))
turning-IsFair zero zero s4 hx hy = inr (inr (inl (refl, refl)))
turning-IsFair zero zero s5 hx hy = inr (inr (inl (refl, refl)))
turning-IsFair zero zero s6 hx hy = inr (inl (refl, refl))
turning-IsFair zero zero s7 hx hy = inr (inl (refl, refl))
turning-IsFair zero (suc zero) s0 hx hy = inr (inl (refl, refl))
turning-IsFair zero (suc zero) s1 hx hy = inr (inr (inl (refl, refl)))
turning-IsFair zero (suc zero) s2 hx hy = inl (refl, refl)
turning-IsFair zero (suc zero) s3 hx hy = inr (inl (refl, refl))
turning-IsFair zero (suc zero) s4 hx hy = inr (inr (inr (inl (refl, refl))))
turning-IsFair zero (suc zero) s5 hx hy = inl (refl, refl)
turning-IsFair zero (suc zero) s6 hx hy = inr (inr (inl (refl, refl)))
turning-IsFair zero (suc zero) s7 hx hy = inr (inr (inr (inl (refl, refl))))
turning-IsFair (suc zero) zero s0 hx hy = inr (inr (inl (refl, refl)))
turning-IsFair (suc zero) zero s1 hx hy = inr (inr (inr (inl (refl, refl))))
turning-IsFair (suc zero) zero s2 hx hy = inr (inl (refl, refl))
turning-IsFair (suc zero) zero s3 hx hy = inr (inr (inl (refl, refl)))
turning-IsFair (suc zero) zero s4 hx hy = inl (refl, refl)
turning-IsFair (suc zero) zero s5 hx hy = inr (inl (refl, refl))
turning-IsFair (suc zero) zero s6 hx hy = inr (inr (inr (inl (refl, refl))))
turning-IsFair (suc zero) zero s7 hx hy = inl (refl, refl)
turning-IsFair (suc zero) (suc zero) s0 hx hy = inr (inr (inr (inl (refl, refl))))
turning-IsFair (suc zero) (suc zero) s1 hx hy = inr (inl (refl, refl))
turning-IsFair (suc zero) (suc zero) s2 hx hy = inr (inr (inl (refl, refl)))
turning-IsFair (suc zero) (suc zero) s3 hx hy = inl (refl, refl)
turning-IsFair (suc zero) (suc zero) s4 hx hy = inr (inl (refl, refl))
turning-IsFair (suc zero) (suc zero) s5 hx hy = inr (inr (inr (inl (refl, refl))))
turning-IsFair (suc zero) (suc zero) s6 hx hy = inl (refl, refl)
turning-IsFair (suc zero) (suc zero) s7 hx hy = inr (inr (inl (refl, refl)))
turning-IsFair (suc (suc x)) y e hx hy = absurd (omega arith)
turning-IsFair zero (suc (suc y)) e hx hy = absurd (omega arith)
turning-IsFair (suc zero) (suc (suc y)) e hx hy = absurd (omega arith)

set_up_total_example :
    (w : World) × (e' : Phase) × (set_up turning 4 2 2 3 1 s0 ≡ some (w, e'))
    × IsValid w
    × (length w.balls ≡ 3)
    × ((w' : World) × (round w ≡ some w'))
set_up_total_example =
    set_up_total turning 4 2 2 3 1 s0 (omega arith) (omega arith) (omega arith) (omega arith)
      (omega arith) turning-IsFair turning-IsFair
