-- ===== src/Bot/Tests.antt =====
-- examples/bot_client.cc: a client in a duel, and frames that arrive in pieces.
use my_game_server.Base.{
  ℕ, true, List, [], ◌∷◌, ◌++◌, Option, none, some, map, ◌≡◌, refl, ap, ◌∙◌, arith,
}
use my_game_server.Base.Map.{insert, lookup}
use my_game_server.BattleSim.Whole.{whole}
use my_game_server.Room.{
  do_op, on_tick, play, judge, end_battle, drop_conn, on_input, Op, ticks, inputs, drops, seat,
  start, do_ops, make,
}
use my_game_server.Room.Defs.{Message, Room, emit}
use my_game_server.Codec.{encode}
use my_game_server.Bot.{Heard, of_room, new_bot, turns}
use my_game_server.Bot.Track.{heard}
use my_game_server.Bot.Follow.{sent_to, bound, Follows}
use my_game_server.Bot.Copy.{battle, turns-Follows}
use my_game_server.Bot.Socket.{gives, fails, recv_frame}
use my_game_server.Bot.Reading.{recv_frame-encode, recv_frame-fails}

abbrev seats : List (ℕ × Option ℕ)
seats = (1, some 7) ∷ ((2, some 8) ∷ [])

abbrev tasks : List (Op whole)
tasks =
    inputs 1 (record { seq = 1; move_x = 1; move_y = 0; attack = true })
    ∷ (drops 2 ∷ (ticks ∷ (ticks ∷ [])))

-- One message in each round, and one round without any in between.
script : List (Message whole) → List (ℕ × Option (Heard whole))
script [] = []
script (m ∷ ms) = (50, some (of_room m)) ∷ ((60, none) ∷ script ms)

heard-script : (ms : List (Message whole)) → heard whole (script ms) ≡ map of_room ms
unfolding heard script
heard-script [] = refl
heard-script (m ∷ ms) = ap (◌∷◌ (of_room m)) (heard-script ms)

tick-conns : (r : Room whole) → (do_op whole ticks r).conns ≡ r.conns
unfolding do_op on_tick play judge end_battle emit
tick-conns r = ground arith

abbrev opened : Room whole
opened =
    do_ops whole
      (inputs 1 (record { seq = 1; move_x = 1; move_y = 0; attack = true }) ∷ (drops 2 ∷ []))
      (start whole (make whole 5 seats))

opened_run : bound 7 opened.conns ≡ true
unfolding do_ops do_op drop_conn on_input start make seat insert lookup bound emit
opened_run = refl

bound_run : bound 7 (battle whole 7 5 seats tasks).conns ≡ true
unfolding do_ops
bound_run =
    ap (bound 7) (tick-conns (do_op whole ticks opened))
    ∙ (ap (bound 7) (tick-conns opened) ∙ opened_run)

turns-Follows_example :
    Follows whole
      (battle whole 7 5 seats tasks).sim
      (turns whole
        (script (sent_to whole 7 (battle whole 7 5 seats tasks).out))
        (new_bot whole none)).world
turns-Follows_example =
    turns-Follows whole 7 5 seats tasks (new_bot whole none)
      (script (sent_to whole 7 (battle whole 7 5 seats tasks).out)) (omega arith) refl
      (heard-script _) bound_run

recv_frame-encode_example :
    let r = recv_frame (record {
      stream = encode 3 (1 ∷ 2 ∷ []) ++ (9 ∷ []);
      script = gives 0 ∷ gives 4 ∷ gives 0 ∷ gives 0 ∷ gives 9 ∷ gives 0 ∷ gives 0 ∷ gives 0 ∷ [];
    }) in
    (r.0 ≡ some (3, 1 ∷ 2 ∷ [])) × (r.1.stream ≡ 9 ∷ [])
recv_frame-encode_example =
    recv_frame-encode 3 (1 ∷ 2 ∷ []) (9 ∷ [])
      (gives 0 ∷ gives 4 ∷ gives 0 ∷ gives 0 ∷ gives 9 ∷ gives 0 ∷ gives 0 ∷ gives 0 ∷ [])
      (omega arith) (omega arith) (omega arith) (omega arith)

header_runs :
    recv_frame (record {
      stream = 0 ∷ 0 ∷ 0 ∷ 4 ∷ 0 ∷ 3 ∷ 1 ∷ 2 ∷ [];
      script = gives 2 ∷ fails ∷ gives 9 ∷ [];
    })
    ≡ (none, record { stream = 4 ∷ 0 ∷ 3 ∷ 1 ∷ 2 ∷ []; script = gives 9 ∷ [] })
header_runs =
    recv_frame-fails 2 (0 ∷ 0 ∷ 0 ∷ 4 ∷ 0 ∷ 3 ∷ 1 ∷ 2 ∷ []) (gives 9 ∷ []) (omega arith)
      (omega arith)
