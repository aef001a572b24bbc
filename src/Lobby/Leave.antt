-- ===== src/Lobby/Leave.antt =====
-- game/GameServer.cc: the handlers that end things: a lost connection, a session that expires, the end
-- of a room, the heartbeat sweep; the leaderboard; and the timers of the lobby.
use my_game_server.Base.{
  ℕ, ◌-◌, ltb, ◌==◌, if◌then◌else◌, Bool, true, false, not, ◌&&◌, ◌||◌, [], ◌∷◌, Option, none, some,
}
use my_game_server.Base.Map
use my_game_server.Base.Map.{Map}
use my_game_server.MatchQueue
use my_game_server.TimerWheel
use my_game_server.Lobby.Defs.{
  Stage, in_lobby, matching, in_room, Account, Session, Timer, match_timeout, session_expiry,
  heartbeat_sweep, no_leaderboard, drop_conn, force_end, offline, result, leaderboard, send, shut,
  room_task, store, Lobby, State, emit, emit_store, put_session,
}
use my_game_server.Lobby.{
  heartbeat_timeout_ms, session_keep_ms, sweep_interval_ms, on_match_timeout,
}

abbrev pub drop_in_room : Option (Option ℕ) → ℕ → ℕ → Lobby → Lobby
drop_in_room none room_id pid l = l
drop_in_room (some loop) room_id pid l = emit (room_task room_id (drop_conn pid)) l

-- What `onDisconnect` does by the state of the session: the session, and the lobby.
abbrev pub leave_stage : Stage → Session → ℕ → Lobby → Session × Lobby
leave_stage in_lobby s pid l = (s, l)
leave_stage matching s pid l =
    (record s { stage = in_lobby }, record l { match_queue = MatchQueue.remove l.match_queue pid })
leave_stage in_room s pid l = (s, drop_in_room (Map.lookup s.room_id l.rooms) s.room_id pid l)

unfoldable pub leave : ℕ → Session → State → State
leave pid s (w, l) =
    let (s1, l1) = leave_stage s.stage (record s { conn = none }) pid l in
    let (w1, timer) = TimerWheel.add w session_keep_ms (session_expiry pid) in
    (
      w1,
      emit_store (offline s.account) (put_session (record s1 { expire_timer_id = timer }) pid l1),
    )

abbrev pub leave_session : Option Session → ℕ → State → State
leave_session none pid st = st
leave_session (some s) pid st = leave pid s st

abbrev pub leave_conn : Option ℕ → ℕ → State → State
leave_conn none conn st = st
leave_conn (some pid) conn (w, l) =
    leave_session (Map.lookup pid l.sessions) pid
      (w, record l { conn_to_player = Map.erase conn l.conn_to_player })

unfoldable pub on_disconnect : ℕ → State → State
unfolding leave
on_disconnect conn (w, l) = leave_conn (Map.lookup conn l.conn_to_player) conn (w, l)

-- The loop over the sessions in `expireSession`: the last other player of the room wins.
unfoldable pub opponent : ℕ → ℕ → Map Session → ℕ → ℕ
opponent room_id pid [] winner = winner
opponent room_id pid ((opid, o) ∷ m) winner =
    opponent room_id pid m (if o.room_id == room_id && not (opid == pid) then opid else winner)

abbrev pub forfeit_room : Option (Option ℕ) → Session → ℕ → Lobby → Lobby
forfeit_room none s pid l = l
forfeit_room (some loop) s pid l =
    emit (room_task s.room_id (force_end (opponent s.room_id pid l.sessions 0))) l

abbrev pub forfeit : Stage → Session → ℕ → Lobby → Lobby
forfeit in_room s pid l = forfeit_room (Map.lookup s.room_id l.rooms) s pid l
forfeit _ s pid l = l

abbrev pub erase_session : ℕ → Lobby → Lobby
erase_session pid l = record l { sessions = Map.erase pid l.sessions }

abbrev pub expire_conn : Option ℕ → Session → ℕ → Lobby → Lobby
expire_conn (some conn) s pid l = l
expire_conn none s pid l = erase_session pid (forfeit s.stage s pid l)

abbrev pub expire_found : Option Session → ℕ → Lobby → Lobby
expire_found none pid l = l
expire_found (some s) pid l = expire_conn s.conn s pid l

unfoldable pub expire_session : ℕ → State → State
unfolding opponent
expire_session pid (w, l) = (w, expire_found (Map.lookup pid l.sessions) pid l)

-- The loop of `onRoomEnd`: the sessions, and the accounts of the winner and the loser.
pub record Ending : Type 0 where
  pub sessions : Map Session
  pub winner : Account
  pub loser : Account

unfoldable pub end_sessions : ℕ → ℕ → Map Session → Account → Account → Ending
end_sessions room_id winner_id [] winner loser = record {
  sessions = [];
  winner = winner;
  loser = loser;
}
end_sessions room_id winner_id ((pid, s) ∷ m) winner loser =
    let here = s.room_id == room_id in
    let won = pid == winner_id in
    let rest =
      end_sessions room_id winner_id m (if here && won then s.account else winner)
        (if here && not won then s.account else loser) in
    record rest {
      sessions =
          (pid, (if here then record s { room_id = 0; stage = in_lobby } else s)) ∷ rest.sessions;
    }

abbrev pub is_empty : Account → Bool
is_empty [] = true
is_empty (c ∷ cs) = false

unfoldable pub on_room_end : ℕ → ℕ → State → State
unfolding end_sessions
on_room_end room_id winner_id (w, l) =
    let e = end_sessions room_id winner_id l.sessions [] [] in
    let l1 : Lobby = record l { rooms = Map.erase room_id l.rooms; sessions = e.sessions } in
    (
      w,
      (if not (is_empty e.winner) && not (is_empty e.loser)
          then emit_store (result e.winner e.loser) l1
          else l1),
    )

-- `static_cast<int>` of a `uint32_t` from 2 ^ 31 on is negative.
unfoldable pub clamp_top : ℕ → ℕ
clamp_top n = if n == 0 || ltb 100 n then 10 else n

unfoldable pub on_leaderboard : ℕ → ℕ → State → State
on_leaderboard conn top_n (w, l) =
    let n = clamp_top top_n in
    (
      w,
      (if l.has_writer
          then emit (store (leaderboard conn n)) l
          else emit (send conn no_leaderboard) l),
    )

-- A heartbeat later than the clock makes the difference of the 64-bit numbers huge.
abbrev pub is_late : ℕ → ℕ → Bool
is_late now last = ltb now last || ltb heartbeat_timeout_ms (now - last)

abbrev pub sweep_session : Session → Option ℕ → Lobby → Lobby
sweep_session s none l = l
sweep_session s (some conn) l =
    if is_late l.clock_ms s.last_heartbeat_ms then emit (shut conn) l else l

unfoldable pub sweep_all : Map Session → Lobby → Lobby
sweep_all [] l = l
sweep_all ((pid, s) ∷ m) l = sweep_all m (sweep_session s s.conn l)

-- `sweepHeartbeats` and `scheduleSweep`.
unfoldable pub sweep : State → State
unfolding sweep_all
sweep (w, l) = ((TimerWheel.add w sweep_interval_ms heartbeat_sweep).0, sweep_all l.sessions l)

unfoldable pub run_timer : Timer → State → State
unfolding on_match_timeout expire_session sweep
run_timer (match_timeout pid) st = on_match_timeout pid st
run_timer (session_expiry pid) st = expire_session pid st
run_timer heartbeat_sweep st = sweep st

-- The driver of the wheel.
unfoldable pub drive : ℕ → State → State
drive ms st = TimerWheel.advance run_timer ms st
