-- ===== src/Lobby/Teardown/Tests.antt =====
-- game/GameServer.cc, the destructor: two rooms on game loops and one on the loop of the lobby.
use my_game_server.Base.{ℕ, false, List, [], ◌∷◌, ◌≡◌, refl}
use my_game_server.Base.Map.{Map, keys}
use my_game_server.Lobby.Teardown.{
  Op, stops, shuts, serving, tear_down, run, stop_rooms, send_stop, stop_room, finish_one, step,
  front, drop_front, close,
}
use my_game_server.Lobby.Teardown.Releases.{times, rest_of, run-closed, run-releases}

abbrev three : Map ℕ
three = (7, 1) ∷ (8, 0) ∷ (9, 2) ∷ []

abbrev some_steps : List Op
some_steps = stops 2 ∷ shuts ∷ []

abbrev all_steps : List Op
all_steps = stops 2 ∷ stops 1 ∷ shuts ∷ []

run-closed_example :
    let s = run all_steps (tear_down (serving three)) in
    (s.released ≡ 1) × (s.pending ≡ []) × (times 9 s.stopped ≡ times 9 (keys three))
unfolding run tear_down serving stop_rooms send_stop stop_room finish_one step front drop_front
    close
run-closed_example = run-closed three all_steps 9 refl

run-releases_example :
    let s = run some_steps (tear_down (serving three)) in
    let s' = run (rest_of s.pending) s in
    (s'.released ≡ 1) × (s'.pool ≡ false) × (times 9 s'.stopped ≡ times 9 (keys three))
run-releases_example = run-releases three some_steps 9
