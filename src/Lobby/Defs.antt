-- ===== src/Lobby/Defs.antt =====
-- game/Session.h and game/GameServer.h: the state that the lobby thread owns. A connection is its
-- name, a number; a session token is the pair of random numbers of which it prints the hexadecimal
-- digits; an account name is the list of its characters. `steady_clock` is the field `clock_ms`, which
-- the environment moves, and the random generator the numbers that it will still give.
use my_game_server.Base.{
  ℕ, ◌+◌, ◌%◌, ◌==◌, if◌then◌else◌, Bool, List, [], ◌∷◌, ◌++◌, Option, none, some,
}
use my_game_server.Base.Map
use my_game_server.Base.Map.{Map}
use my_game_server.MatchQueue.{MatchQueue}
use my_game_server.TimerWheel.{Wheel}

-- `enum State`.
pub data Stage : Type 0 where
  in_lobby matching in_room : Stage

abbrev pub Token : Type 0
Token = ℕ × ℕ

abbrev pub Account : Type 0
Account = List ℕ

pub record Session : Type 0 where
  pub player_id : ℕ
  pub token : Token
  pub account : Account
  pub conn : Option ℕ
  pub room_id : ℕ
  pub stage : Stage
  pub last_heartbeat_ms : ℕ
  pub expire_timer_id : ℕ

-- The callbacks that the lobby puts on its timer wheel.
pub data Timer : Type 0 where
  match_timeout session_expiry : ℕ → Timer
  heartbeat_sweep : Timer

-- What the lobby sends to a client.
pub data Reply : Type 0 where
  login_ok : ℕ → Token → Reply
  login_failed match_failed : Reply
  heartbeat : ℕ → Reply
  no_leaderboard : Reply

-- What it hands to the loop of a room; an input is passed on as it came.
pub data RoomTask : Type 0 where
  start : ℕ → Option ℕ → ℕ → Option ℕ → RoomTask
  input rebind : ℕ → ℕ → RoomTask
  drop_conn force_end : ℕ → RoomTask

-- What it hands to the storage thread.
pub data StoreTask : Type 0 where
  online offline : Account → StoreTask
  result : Account → Account → StoreTask
  leaderboard : ℕ → ℕ → StoreTask

pub data Effect : Type 0 where
  send : ℕ → Reply → Effect
  shut : ℕ → Effect
  room_task : ℕ → RoomTask → Effect
  store : StoreTask → Effect

-- The game loops, and whose turn is next (`net::EventLoopThreadPool`).
pub record Pool : Type 0 where
  pub loops : ℕ
  pub next : ℕ

pub record Lobby : Type 0 where
  pub conn_to_player : Map ℕ
  pub sessions : Map Session
  -- The rooms, each with the number of its loop; `none` is the lobby's own.
  pub rooms : Map (Option ℕ)
  pub match_queue : MatchQueue
  pub match_timer : Map ℕ
  pub next_player_id : ℕ
  pub next_room_id : ℕ
  pub pool : Pool
  pub has_writer : Bool
  pub clock_ms : ℕ
  pub random : ℕ → ℕ
  pub drawn : ℕ
  pub out : List Effect

-- The state of the lobby with its timer wheel.
abbrev pub State : Type 0
State = Wheel Timer × Lobby

abbrev pub emit : Effect → Lobby → Lobby
emit e l = record l { out = l.out ++ (e ∷ []) }

-- `if (writer_) writer_->enqueue(...)`.
abbrev pub emit_store : StoreTask → Lobby → Lobby
emit_store t l = if l.has_writer then emit (store t) l else l

abbrev pub put_session : Session → ℕ → Lobby → Lobby
put_session s pid l = record l { sessions = Map.insert pid s l.sessions }

-- `EventLoopThreadPool::getNextLoop`; `none` is the base loop.
unfoldable pub get_next_loop : Pool → Option ℕ × Pool
get_next_loop p =
    if p.loops == 0 then (none, p) else (some p.next, record p { next = (p.next + 1) % p.loops })

-- `genToken`.
unfoldable pub gen_token : Lobby → Token × Lobby
gen_token l = ((l.random l.drawn, l.random (l.drawn + 1)), record l { drawn = l.drawn + 2 })

abbrev pub bind_session : Option ℕ → Map Session → Option Session
bind_session none m = none
bind_session (some pid) m = Map.lookup pid m

-- `sessionOf`.
unfoldable pub session_of : Lobby → ℕ → Option Session
session_of l conn = bind_session (Map.lookup conn l.conn_to_player) l.sessions
