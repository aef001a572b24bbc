-- ===== src/Lobby.antt =====
-- game/GameServer.cc: what the lobby thread does, one function for each handler. A handler runs to its
-- end before the next one: they are closures that the lobby's loop executes one after the other. What a
-- handler hands to other threads is appended to `out`, in order.
pub mod Defs
pub mod Leave
pub mod Inv
pub mod Arrive
pub mod Matching
pub mod Waiting
pub mod Depart
pub mod Expire
pub mod RoomEnd
pub mod Calls
pub mod Pairs
pub mod Guard
pub mod Teardown
pub mod Intake
mod Tests
use my_game_server.Base.{
  ℕ, suc, ◌+◌, ◌-◌, ◌<◌, ltb, leb, ◌==◌, if◌then◌else◌, Bool, true, false, not, ◌&&◌, ◌||◌, List,
  [], ◌∷◌, ◌++◌, Option, none, some,
}
use my_game_server.Base.Map
use my_game_server.Base.Map.{Map}
use my_game_server.MatchQueue
use my_game_server.MatchQueue.{MatchQueue}
use my_game_server.TimerWheel
use my_game_server.TimerWheel.{Wheel}
use Defs.{
  Stage, in_lobby, matching, in_room, Token, Account, Session, Timer, match_timeout, session_expiry,
  heartbeat_sweep, Reply, login_ok, login_failed, match_failed, heartbeat, no_leaderboard, RoomTask,
  start, input, rebind, drop_conn, force_end, StoreTask, online, offline, result, leaderboard,
  Effect, send, shut, room_task, store, Lobby, State, emit, emit_store, put_session, get_next_loop,
  gen_token, session_of,
}

abbrev pub heartbeat_timeout_ms : ℕ
heartbeat_timeout_ms = 10000

abbrev pub match_timeout_ms : ℕ
match_timeout_ms = 30000

abbrev pub session_keep_ms : ℕ
session_keep_ms = 30000

abbrev pub sweep_interval_ms : ℕ
sweep_interval_ms = 5000

unfoldable pub on_login : ℕ → Account → State → State
unfolding gen_token
on_login conn account (w, l) =
    let pid = l.next_player_id in
    let (token, l1) = gen_token (record l { next_player_id = pid + 1 }) in
    let s : Session = record {
      player_id = pid;
      token = token;
      account = account;
      conn = some conn;
      room_id = 0;
      stage = in_lobby;
      last_heartbeat_ms = l.clock_ms;
      expire_timer_id = 0;
    } in
    let l2 : Lobby = record l1 {
      sessions = Map.insert pid s l1.sessions;
      conn_to_player = Map.insert conn pid l1.conn_to_player;
    } in
    (w, emit_store (online account) (emit (send conn (login_ok pid token)) l2))

abbrev pub same_token : Token → Token → Bool
same_token (a, b) (c, d) = a == c && b == d

abbrev pub reject_login : ℕ → State → State
reject_login conn (w, l) = (w, emit (shut conn) (emit (send conn login_failed) l))

abbrev pub rebind_room : Stage → Option (Option ℕ) → ℕ → ℕ → ℕ → Lobby → Lobby
rebind_room in_room (some loop) room_id pid conn l = emit (room_task room_id (rebind pid conn)) l
rebind_room _ _ room_id pid conn l = l

-- `onReconnect` once the session is found in order.
unfoldable pub resume : ℕ → Session → State → State
resume conn s (w, l) =
    let pid = s.player_id in
    let w1 = if s.expire_timer_id == 0 then w else TimerWheel.cancel w s.expire_timer_id in
    let s1 : Session = record s {
      expire_timer_id = 0;
      conn = some conn;
      last_heartbeat_ms = l.clock_ms;
    } in
    let l1 : Lobby = record l {
      sessions = Map.insert pid s1 l.sessions;
      conn_to_player = Map.insert conn pid l.conn_to_player;
    } in
    let l2 = emit (send conn (login_ok pid s.token)) l1 in
    let l3 = rebind_room s.stage (Map.lookup s.room_id l.rooms) s.room_id pid conn l2 in
    (w1, emit_store (online s.account) l3)

abbrev pub resume_free : Option ℕ → Bool → ℕ → Session → State → State
resume_free none true conn s st = resume conn s st
resume_free _ _ conn s st = reject_login conn st

abbrev pub resume_found : ℕ → Token → Option Session → State → State
resume_found conn token none st = reject_login conn st
resume_found conn token (some s) st = resume_free s.conn (same_token s.token token) conn s st

unfoldable pub on_reconnect : ℕ → ℕ → Token → State → State
unfolding resume
on_reconnect conn pid token (w, l) = resume_found conn token (Map.lookup pid l.sessions) (w, l)

abbrev pub cancel_found : ℕ → Option ℕ → State → State
cancel_found pid none st = st
cancel_found pid (some timer) (w, l) =
    (TimerWheel.cancel w timer, record l { match_timer = Map.erase pid l.match_timer })

-- The loop of `tryMatch` over the two players.
unfoldable pub cancel_match_timer : ℕ → State → State
cancel_match_timer pid (w, l) = cancel_found pid (Map.lookup pid l.match_timer) (w, l)

unfoldable pub enter_room : ℕ → ℕ → Session → Lobby → Lobby
enter_room room_id pid s l = put_session (record s { stage = in_room; room_id = room_id }) pid l

-- `tryMatch` from the construction of the room on.
unfoldable pub make_room : ℕ → ℕ → Session → Session → State → State
unfolding get_next_loop enter_room
make_room a b sa sb (w, l) =
    let room_id = l.next_room_id in
    let (loop, pool) = get_next_loop l.pool in
    let l1 : Lobby = record l {
      next_room_id = room_id + 1;
      pool = pool;
      rooms = Map.insert room_id loop l.rooms;
    } in
    let l2 = enter_room room_id b sb (enter_room room_id a sa l1) in
    (w, emit (room_task room_id (start sa.player_id sa.conn sb.player_id sb.conn)) l2)

abbrev pub match_found : ℕ → ℕ → Option Session → Option Session → State → State
match_found a b (some sa) (some sb) st =
    make_room a b sa sb (cancel_match_timer b (cancel_match_timer a st))
match_found a b _ _ st = st

abbrev pub match_pair : Option (ℕ × ℕ) → State → State
match_pair none st = st
match_pair (some (a, b)) (w, l) =
    match_found a b (Map.lookup a l.sessions) (Map.lookup b l.sessions) (w, l)

-- The outer `none` would be a read of an empty deque.
abbrev pub match_popped : Option (Option (ℕ × ℕ) × MatchQueue) → State → State
match_popped none st = st
match_popped (some (pair, q)) (w, l) = match_pair pair (w, record l { match_queue = q })

unfoldable pub try_match : State → State
unfolding make_room cancel_match_timer
try_match (w, l) = match_popped (MatchQueue.pop_pair l.match_queue) (w, l)

-- `onMatch` once the player was pushed.
unfoldable pub wait_for_match : Session → MatchQueue → State → State
wait_for_match s q (w, l) =
    let pid = s.player_id in
    let (w1, timer) = TimerWheel.add w match_timeout_ms (match_timeout pid) in
    (
      w1,
      record l {
        match_queue = q;
        sessions = Map.insert pid (record s { stage = matching }) l.sessions;
        match_timer = Map.insert pid timer l.match_timer;
      },
    )

abbrev pub match_pushed : Session → MatchQueue × Bool → State → State
match_pushed s (q, true) st = try_match (wait_for_match s q st)
match_pushed s (q, false) st = st

abbrev pub match_in_stage : Stage → Session → State → State
match_in_stage in_lobby s (w, l) = match_pushed s (MatchQueue.push l.match_queue s.player_id) (w, l)
match_in_stage _ s st = st

abbrev pub match_session : Option Session → State → State
match_session none st = st
match_session (some s) st = match_in_stage s.stage s st

unfoldable pub on_match : ℕ → State → State
unfolding wait_for_match try_match
on_match conn (w, l) = match_session (session_of l conn) (w, l)

abbrev pub notify_failure : Option ℕ → Lobby → Lobby
notify_failure none l = l
notify_failure (some conn) l = emit (send conn match_failed) l

abbrev pub give_up : ℕ → Option Session → Lobby → Lobby
give_up pid none l = l
give_up pid (some s) l = notify_failure s.conn (put_session (record s { stage = in_lobby }) pid l)

-- The callback of the timer that `onMatch` adds.
unfoldable pub on_match_timeout : ℕ → State → State
on_match_timeout pid (w, l) =
    let l1 : Lobby = record l { match_timer = Map.erase pid l.match_timer } in
    if MatchQueue.contains l.match_queue pid
    then (
      w,
      give_up pid (Map.lookup pid l.sessions)
          (record l1 { match_queue = MatchQueue.remove l.match_queue pid }),
    )
    else (w, l1)

abbrev pub input_in_room : Option (Option ℕ) → ℕ → ℕ → ℕ → Lobby → Lobby
input_in_room none room_id pid i l = l
input_in_room (some loop) room_id pid i l = emit (room_task room_id (input pid i)) l

abbrev pub input_in_stage : Stage → Session → ℕ → Lobby → Lobby
input_in_stage in_room s i l =
    input_in_room (Map.lookup s.room_id l.rooms) s.room_id s.player_id i l
input_in_stage _ s i l = l

abbrev pub input_session : Option Session → ℕ → Lobby → Lobby
input_session none i l = l
input_session (some s) i l = input_in_stage s.stage s i l

unfoldable pub on_input : ℕ → ℕ → State → State
on_input conn i (w, l) = (w, input_session (session_of l conn) i l)

abbrev pub beat : Option Session → Lobby → Lobby
beat none l = l
beat (some s) l = put_session (record s { last_heartbeat_ms = l.clock_ms }) s.player_id l

unfoldable pub on_heartbeat : ℕ → ℕ → State → State
on_heartbeat conn client_ms (w, l) =
    (w, emit (send conn (heartbeat client_ms)) (beat (session_of l conn) l))

-- The lobby after `start`, whose first sweep is on the wheel.
unfoldable pub fresh_lobby : ℕ → Bool → (ℕ → ℕ) → Lobby
fresh_lobby loops writer random = record {
  conn_to_player = [];
  sessions = [];
  rooms = [];
  match_queue = MatchQueue.empty;
  match_timer = [];
  next_player_id = 1;
  next_room_id = 1;
  pool = record { loops = loops; next = 0 };
  has_writer = writer;
  clock_ms = 0;
  random = random;
  drawn = 0;
  out = [];
}

unfoldable pub started : ℕ → Bool → (ℕ → ℕ) → State
unfolding fresh_lobby
started loops writer random = (
  (TimerWheel.add TimerWheel.new sweep_interval_ms heartbeat_sweep).0,
  fresh_lobby loops writer random,
)
