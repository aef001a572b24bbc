-- ===== src/Lobby/Tests.antt =====
-- game/GameServer.cc: two players log in, one leaves and comes back, and they are matched.
use my_game_server.Base.{ℕ, true, List, [], ◌∷◌, some, refl}
use my_game_server.Base.Map.{lookup, insert}
use my_game_server.Base.IdSet.{mem}
use my_game_server.Base.IdSet
use my_game_server.MatchQueue.{
  MatchQueue, pop_pair, push, compact, drop_stale, take_front, take_head,
}
use my_game_server.Lobby.{started, fresh_lobby, on_login, on_match, wait_for_match, try_match}
use my_game_server.Lobby.Waiting.{wait_for_match-IsSound}
use my_game_server.Lobby.Guard.{Untouched, Entitled, on_reconnect-Entitled}
use my_game_server.Base.{◌⊎◌}
use my_game_server.Lobby.{on_reconnect}
use my_game_server.Lobby.Pairs.{Paired, try_match-Paired}
use my_game_server.Lobby.Defs.{State, Session, in_lobby, gen_token, session_of}
use my_game_server.Lobby.Inv.{IsSound}
use my_game_server.Lobby.Calls.{
  Call, logs_in, reconnects, asks_match, disconnects, time, room_ends, do_call, do_calls,
  started-IsSound,
}

abbrev numbers : ℕ → ℕ
numbers n = n

abbrev evening : List Call
evening =
    logs_in 7 (65 ∷ [])
    ∷ logs_in 8 (66 ∷ [])
    ∷ asks_match 7
    ∷ disconnects 7
    ∷ reconnects 9 1 (0, 1)
    ∷ asks_match 9
    ∷ asks_match 8
    ∷ time 100
    ∷ room_ends 0 2
    ∷ []

started-IsSound_example : IsSound (do_calls evening (started 2 true numbers)).1
started-IsSound_example = started-IsSound 2 true numbers evening

-- The first player waits, and the second has just been pushed.
abbrev arrivals : List Call
arrivals = logs_in 7 (65 ∷ []) ∷ logs_in 8 (66 ∷ []) ∷ asks_match 7 ∷ []

abbrev before : State
before = do_calls arrivals (started 2 true numbers)

abbrev second : Session
second = record {
  player_id = 2;
  token = (2, 3);
  account = 66 ∷ [];
  conn = some 8;
  room_id = 0;
  stage = in_lobby;
  last_heartbeat_ms = 0;
  expire_timer_id = 0;
}

abbrev full_queue : MatchQueue
full_queue = record { order = 1 ∷ 2 ∷ []; waiting = 2 ∷ 1 ∷ [] }

abbrev empty_queue : MatchQueue
empty_queue = record { order = []; waiting = [] }

try_match-Paired_example :
    Paired
      (wait_for_match second full_queue before)
      1
      2
      empty_queue
      (try_match (wait_for_match second full_queue before))
unfolding do_calls do_call on_login on_match started fresh_lobby gen_token session_of lookup insert
    push wait_for_match try_match pop_pair mem IdSet.insert IdSet.erase compact drop_stale
    take_front take_head
try_match-Paired_example =
    try_match-Paired (wait_for_match second full_queue before) 1 2 empty_queue
      (wait_for_match-IsSound second full_queue before.0 before.1
        (started-IsSound 2 true numbers arrivals) refl refl refl refl)
      refl

-- A wrong token.
on_reconnect-Entitled_example :
    Untouched before (on_reconnect 9 1 (0, 7) before) ⊎ Entitled 1 (0, 7) before.1
on_reconnect-Entitled_example = on_reconnect-Entitled 9 1 (0, 7) before
