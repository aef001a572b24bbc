-- ===== src/Lobby/Teardown.antt =====
-- game/GameServer.cc, the destructor: its functor on the loop of the lobby, the functors that it sends to
-- the loops of the rooms, and the one that comes back. A room's loop is a number, 0 for that of the lobby,
-- on which the rooms run if there are no game threads; `released` counts the calls of `set_value`.
pub mod Orderly
pub mod Releases
mod Tests
use my_game_server.Base.{
  ℕ, zero, suc, ◌+◌, ◌-◌, ◌==◌, if◌then◌else◌, Bool, true, false, List, [], ◌∷◌, ◌++◌, Option, none,
  some, length,
}
use my_game_server.Base.Map.{Map}

-- `closings` counts the functors that wait in the lobby to close the pool, `pending` has the stops that
-- wait, each with its loop, and `stopped` the rooms in the order in which they were stopped.
pub record Teardown : Type 0 where
  pub driver : Bool
  pub rooms : Map ℕ
  pub remain : ℕ
  pub pending : List (ℕ × ℕ)
  pub stopped : List ℕ
  pub closings : ℕ
  pub pool : Bool
  pub released : ℕ

-- The lobby when the destructor begins.
unfoldable pub serving : Map ℕ → Teardown
serving rooms = record {
  driver = true;
  rooms = rooms;
  remain = 0;
  pending = [];
  stopped = [];
  closings = 0;
  pool = true;
  released = 0;
}

unfoldable pub close : Teardown → Teardown
close s = record s { pool = false; released = s.released + 1 }

-- `lobby_->runInLoop` from the loop `here`.
abbrev pub close_from : ℕ → Teardown → Teardown
unfolding close
close_from here s = if here == 0 then close s else record s { closings = s.closings + 1 }

-- `finishOne`, on the loop `here`.
unfoldable pub finish_one : ℕ → Teardown → Teardown
unfolding close
finish_one here s =
    if s.remain == 1
    then close_from here (record s { remain = s.remain - 1 })
    else record s { remain = s.remain - 1 }

unfoldable pub stop_room : ℕ → ℕ → Teardown → Teardown
unfolding finish_one
stop_room here room s = finish_one here (record s { stopped = s.stopped ++ (room ∷ []) })

-- `room->loop()->runInLoop`, on the loop of the lobby.
unfoldable pub send_stop : ℕ → ℕ → Teardown → Teardown
unfolding stop_room
send_stop loop room s =
    if loop == 0
    then stop_room loop room s
    else record s { pending = s.pending ++ ((loop, room) ∷ []) }

-- The loop over the rooms.
unfoldable pub stop_rooms : Map ℕ → Teardown → Teardown
unfolding send_stop
stop_rooms [] s = s
stop_rooms ((room, loop) ∷ rs) s = stop_rooms rs (send_stop loop room s)

-- The functor of the destructor.
unfoldable pub tear_down : Teardown → Teardown
unfolding close stop_rooms
tear_down s =
    let s1 = record s { driver = false; rooms = []; remain = length s.rooms } in
    if length s.rooms == 0 then close s1 else stop_rooms s.rooms s1

unfoldable pub front : ℕ → List (ℕ × ℕ) → Option ℕ
front here [] = none
front here ((loop, room) ∷ ps) = if loop == here then some room else front here ps

unfoldable pub drop_front : ℕ → List (ℕ × ℕ) → List (ℕ × ℕ)
drop_front here [] = []
drop_front here ((loop, room) ∷ ps) = if loop == here then ps else (loop, room) ∷ drop_front here ps

abbrev pub run_front : ℕ → Option ℕ → Teardown → Teardown
unfolding stop_room
run_front here none s = s
run_front here (some room) s =
    stop_room here room (record s { pending = drop_front here s.pending })

abbrev pub run_closing : ℕ → Teardown → Teardown
unfolding close
run_closing zero s = s
run_closing (suc n) s = close (record s { closings = n })

-- A loop runs its oldest functor that stops a room, or the lobby one that closes the pool.
pub data Op : Type 0 where
  stops : ℕ → Op
  shuts : Op

unfoldable pub step : Op → Teardown → Teardown
unfolding front drop_front stop_room close
step (stops here) s = run_front here (front here s.pending) s
step shuts s = run_closing s.closings s

unfoldable pub run : List Op → Teardown → Teardown
unfolding step
run [] s = s
run (o ∷ os) s = run os (step o s)
