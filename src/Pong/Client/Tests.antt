-- ===== src/Pong/Client/Tests.antt =====
-- Runs of the client's game.
use cs61_f18_psets.Base.{◌≡◌, refl, true, some, [], ◌∷◌, map, arith}
use cs61_f18_psets.Base.Int.{pos}
use cs61_f18_psets.Pong.Ball.{World, ball_of}
use cs61_f18_psets.Pong.Client.{
  spinning, move_until, first_world, after_rounds, position, sides_accepted,
}
use cs61_f18_psets.Pong.Client.Wave.{wave}
use cs61_f18_psets.Pong.Client.Game.{position_lem}
use cs61_f18_psets.Pong.Client.Stuck.{one_column_spins}

position_lem_example :
    (w : World) × (after_rounds 1 5 (first_world 4 3) ≡ some w)
    × (position w ≡ (pos (wave 4 5), pos (wave 3 5)))
position_lem_example = position_lem 4 3 (omega arith) (omega arith) 5 0 (omega arith)

wave_run : map (wave 4) (0 ∷ 1 ∷ 2 ∷ 3 ∷ 4 ∷ 5 ∷ 6 ∷ 7 ∷ []) ≡ 0 ∷ 1 ∷ 2 ∷ 3 ∷ 2 ∷ 1 ∷ 0 ∷ 1 ∷ []
wave_run = refl

one_column_spins_example :
    (sides_accepted (pos 1) (pos 5) ≡ true)
    × ((w : World) × (move_until 9 (first_world 1 5) ≡ spinning w)
        × ((ball_of w.balls 0).x ≡ pos 0)
        × ((ball_of w.balls 0).y ≡ pos 0))
one_column_spins_example = one_column_spins 5 9 (omega arith)
