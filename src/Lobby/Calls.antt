-- ===== src/Lobby/Calls.antt =====
-- game/GameServer.cc: the lobby under everything that its loop runs, one after the other.
use my_game_server.Base.{
  ℕ, suc, ◌+◌, ◌<◌, true, false, if◌then◌else◌, Bool, List, [], ◌∷◌, none, some, ◌≡◌, refl, sym,
  ◌∙◌, arith, Bool-cases, inl, inr,
}
use my_game_server.Base.Map.{lookup}
use my_game_server.MatchQueue.{contains}
use my_game_server.MatchQueue.Serve.{empty-IsValid}
use my_game_server.TimerWheel.Keeps.{advance_keeps}
use my_game_server.Lobby.Defs.{
  Session, Stage, matching, in_lobby, Token, Account, Effect, Lobby, State, emit,
}
use my_game_server.Lobby.{
  on_login, on_reconnect, on_match, on_input, on_heartbeat, started, fresh_lobby,
}
use my_game_server.Lobby.Leave.{
  on_disconnect, on_room_end, on_leaderboard, clamp_top, drive, run_timer,
}
use my_game_server.Lobby.Inv.{IsSound}
use my_game_server.Lobby.Arrive.{
  on_login-IsSound, on_reconnect-IsSound, on_heartbeat-IsSound, on_input-IsSound,
}
use my_game_server.Lobby.Waiting.{on_match-IsSound}
use my_game_server.Lobby.Depart.{on_disconnect-IsSound}
use my_game_server.Lobby.Expire.{run_timer-IsSound}
use my_game_server.Lobby.RoomEnd.{on_room_end-IsSound}

-- What comes to the lobby. The ids of rooms start at 1, so that `room_ends n` is about the room `n + 1`.
-- `clock_shows` is the clock, `time` what the driver of the wheel reports.
pub data Call : Type 0 where
  logs_in : ℕ → Account → Call
  reconnects : ℕ → ℕ → Token → Call
  asks_match disconnects : ℕ → Call
  sends_input beats room_ends asks_top : ℕ → ℕ → Call
  time clock_shows : ℕ → Call

unfoldable pub do_call : Call → State → State
do_call (logs_in conn a) st = on_login conn a st
do_call (reconnects conn pid token) st = on_reconnect conn pid token st
do_call (asks_match conn) st = on_match conn st
do_call (disconnects conn) st = on_disconnect conn st
do_call (sends_input conn i) st = on_input conn i st
do_call (beats conn ms) st = on_heartbeat conn ms st
do_call (room_ends room winner) st = on_room_end (suc room) winner st
do_call (asks_top conn n) st = on_leaderboard conn n st
do_call (time ms) st = drive ms st
do_call (clock_shows ms) (w, l) = (w, record l { clock_ms = ms })

unfoldable pub do_calls : List Call → State → State
do_calls [] st = st
do_calls (c ∷ cs) st = do_calls cs (do_call c st)

on_leaderboard-IsSound :
    (conn n : ℕ) (st : State) → IsSound st.1 → IsSound (on_leaderboard conn n st).1
unfolding on_leaderboard
on_leaderboard-IsSound conn n (w, l) v = either l.has_writer
  where
    either :
        (b : Bool)
        → IsSound (
            if b
            then emit (Effect.store (my_game_server.Lobby.Defs.leaderboard conn (clamp_top n))) l
            else emit (Effect.send conn my_game_server.Lobby.Defs.no_leaderboard) l)
    either true = v
    either false = v

do_call-IsSound : (c : Call) (st : State) → IsSound st.1 → IsSound (do_call c st).1
unfolding do_call drive
do_call-IsSound (logs_in conn a) st v = on_login-IsSound conn a st v
do_call-IsSound (reconnects conn pid token) st v = on_reconnect-IsSound conn pid token st v
do_call-IsSound (asks_match conn) st v = on_match-IsSound conn st v
do_call-IsSound (disconnects conn) st v = on_disconnect-IsSound conn st v
do_call-IsSound (sends_input conn i) st v = on_input-IsSound conn i st v
do_call-IsSound (beats conn ms) st v = on_heartbeat-IsSound conn ms st v
do_call-IsSound (room_ends room winner) st v =
    on_room_end-IsSound (suc room) winner st (omega arith) v
do_call-IsSound (asks_top conn n) st v = on_leaderboard-IsSound conn n st v
do_call-IsSound (time ms) st v = advance_keeps run_timer IsSound run_timer-IsSound ms st v
do_call-IsSound (clock_shows ms) (w, l) v = v

do_calls-IsSound : (cs : List Call) (st : State) → IsSound st.1 → IsSound (do_calls cs st).1
unfolding do_calls
do_calls-IsSound [] st v = v
do_calls-IsSound (c ∷ cs) st v = do_calls-IsSound cs (do_call c st) (do_call-IsSound c st v)

-- Whatever comes to a lobby that was started, in whatever order, the timers included: each session stands
-- under its player's id; a connection leads to a session that is bound to that connection; and a player
-- waits in the match queue, which is valid, exactly while the player's session is in matching.
pub started-IsSound :
    (loops : ℕ) (writer : Bool) (random : ℕ → ℕ) (cs : List Call)
    → IsSound (do_calls cs (started loops writer random)).1
unfolding started fresh_lobby lookup contains my_game_server.Base.IdSet.mem
started-IsSound loops writer random cs =
    do_calls-IsSound cs _ (record {
      each = λ j s e. cc;
      bound = λ c p e. cc;
      queued = λ j. refl;
      valid = empty-IsValid;
    })
