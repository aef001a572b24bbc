-- ===== src/Room/Tests.antt =====
-- game/Room.cc: a duel of which one player has lost the connection, that a forfeit ends, and one in which
-- both players fall.
use my_game_server.Base.{ℕ, true, false, List, [], ◌∷◌, Option, none, some, refl}
use my_game_server.BattleSim.Whole.{whole}
use my_game_server.BattleSim.Defs.{Player, no_input, new}
use my_game_server.BattleSim.Health.{health}
use my_game_server.Room.Stuck.{IsStuck, do_ops-IsStuck}
use my_game_server.Room.{
  seat, ticks, make, Op, starts, rebinds, drops, forces, stops, do_op, do_ops, force_end,
  end_battle,
}
use my_game_server.Room.Defs.{Room, emit}
use my_game_server.Room.Ends.{ends, EndsOnce, make-EndsOnce}
use my_game_server.Room.After.{Over, do_ops-Over}

abbrev seats : List (ℕ × Option ℕ)
seats = (1, some 7) ∷ (2, none) ∷ []

abbrev tasks : List (Op whole)
tasks = starts ∷ rebinds 2 8 ∷ forces 2 ∷ forces 1 ∷ drops 2 ∷ stops ∷ []

make-EndsOnce_example : EndsOnce whole (do_ops whole tasks (make whole 3 seats))
make-EndsOnce_example = make-EndsOnce whole 3 seats tasks

abbrev finished : Room whole
finished = force_end whole 1 (make whole 3 seats)

do_ops-Over_example : Over whole finished (do_ops whole tasks finished)
unfolding force_end end_battle emit make my_game_server.Room.seat
do_ops-Over_example = do_ops-Over whole tasks finished refl

abbrev fallen : ℕ → Player whole
fallen i = record {
  id = i;
  x = 50;
  y = 50;
  hp = 0;
  seq = 0;
  cd_ms = 0;
  facing_x = 1;
  facing_y = 0;
  input = no_input whole;
  has_input = false;
}

-- Both players fell in the last tick.
abbrev drawn : Room whole
drawn = record (make whole 3 []) {
  sim = record (new whole) { players = (1, fallen 1) ∷ (2, fallen 2) ∷ [] };
  conns = (1, some 7) ∷ (2, some 8) ∷ [];
  ticker = true;
}

drawn-IsStuck : IsStuck whole drawn
unfolding make seat health ends
drawn-IsStuck = record { dead = (refl, (refl, tt)); goes_on = refl; silent = refl }

do_ops-IsStuck_example :
    IsStuck whole (do_ops whole (ticks ∷ drops 1 ∷ rebinds 1 9 ∷ ticks ∷ []) drawn)
do_ops-IsStuck_example =
    do_ops-IsStuck whole (ticks ∷ drops 1 ∷ rebinds 1 9 ∷ ticks ∷ []) drawn
      (refl, (refl, (refl, (refl, tt)))) drawn-IsStuck
