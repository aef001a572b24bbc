-- ===== src/Lobby/Intake.antt =====
-- game/GameServer.cc, the constructor: what the callbacks and the handlers that it registers hand on when
-- an IO thread has cut a message out of a connection's bytes. The ids are those of proto/MsgId.h; a type of
-- message, and its handler, has the number of the id it is registered for. How protobuf parses each type is
-- a parameter.
pub mod Posts
mod Tests
use my_game_server.Base.{
  ℕ, ◌==◌, if◌then◌else◌, Bool, true, false, List, [], ◌∷◌, ◌++◌, Option, none, some,
}
use my_game_server.Codec
use my_game_server.Codec.{message, shutdown, discarded}
use my_game_server.Dispatcher.{Dispatcher, handles, defaults, register_handler, on_raw_message}
use my_game_server.Dispatcher
use my_game_server.Lobby.Defs.{Token, Account}
use my_game_server.Lobby.Calls.{
  Call, logs_in, reconnects, asks_match, sends_input, beats, disconnects,
}

abbrev pub heartbeat_id : ℕ
heartbeat_id = 2

abbrev pub login_id : ℕ
login_id = 3

abbrev pub reconnect_id : ℕ
reconnect_id = 5

abbrev pub match_id : ℕ
match_id = 10

abbrev pub input_id : ℕ
input_id = 20

abbrev pub leaderboard_id : ℕ
leaderboard_id = 30

-- The parsed messages, with what the handlers read of them.
pub data Request : Type 0 where
  login_req : Account → Request
  reconnect_req : ℕ → Token → Request
  match_req : Request
  player_input heartbeat leaderboard_req : ℕ → Request

-- `ParseFromArray` of each type.
pub record Parsers : Type 0 where
  pub login : List ℕ → Option Account
  pub reconnect : List ℕ → Option (ℕ × Token)
  pub match : List ℕ → Bool
  pub input : List ℕ → Option ℕ
  pub heartbeat : List ℕ → Option ℕ
  pub leaderboard : List ℕ → Option ℕ

abbrev pub as_login : Option Account → Option Request
as_login none = none
as_login (some a) = some (login_req a)

abbrev pub as_reconnect : Option (ℕ × Token) → Option Request
as_reconnect none = none
as_reconnect (some (pid, token)) = some (reconnect_req pid token)

abbrev pub as_number : (ℕ → Request) → Option ℕ → Option Request
as_number f none = none
as_number f (some n) = some (f n)

unfoldable pub parse : Parsers → ℕ → List ℕ → Option Request
parse ps type bytes =
    if type == login_id
    then as_login (ps.login bytes)
    else if type == reconnect_id
    then as_reconnect (ps.reconnect bytes)
    else if type == match_id
    then (if ps.match bytes then some match_req else none)
    else if type == input_id
    then as_number player_input (ps.input bytes)
    else if type == heartbeat_id
    then as_number heartbeat (ps.heartbeat bytes)
    else if type == leaderboard_id
    then as_number leaderboard_req (ps.leaderboard bytes)
    else none

-- The registrations, in their order.
unfoldable pub dispatcher : Dispatcher
unfolding register_handler
dispatcher = register_handler leaderboard_id leaderboard_id leaderboard_id (
    register_handler heartbeat_id heartbeat_id heartbeat_id (
      register_handler input_id input_id input_id (
        register_handler match_id match_id match_id (
          register_handler reconnect_id reconnect_id reconnect_id
            (register_handler login_id login_id login_id Dispatcher.fresh)))))

-- A functor for the loop of the lobby, or a call of `onLeaderboard` on the spot.
pub data Post : Type 0 where
  hops : Call → Post
  queries : ℕ → ℕ → Post

abbrev pub post_if : Bool → Post → List Post
post_if b p = if b then p ∷ [] else []

-- The handler that is registered for the id `h`; it takes messages of its own type.
unfoldable pub handle : ℕ → ℕ → Request → List Post
handle conn h (login_req a) = post_if (h == login_id) (hops (logs_in conn a))
handle conn h (reconnect_req pid token) =
    post_if (h == reconnect_id) (hops (reconnects conn pid token))
handle conn h match_req = post_if (h == match_id) (hops (asks_match conn))
handle conn h (player_input i) = post_if (h == input_id) (hops (sends_input conn i))
handle conn h (heartbeat ms) = post_if (h == heartbeat_id) (hops (beats conn ms))
handle conn h (leaderboard_req n) = post_if (h == leaderboard_id) (queries conn n)

unfoldable pub post_all : ℕ → List (Dispatcher.Call Request) → List Post
unfolding handle
post_all conn [] = []
post_all conn (handles h m ∷ cs) = handle conn h m ++ post_all conn cs
post_all conn (defaults id ∷ cs) = post_all conn cs

-- The message callback of the codec.
unfoldable pub take_in : Parsers → ℕ → Codec.Event → List Post
unfolding post_all parse dispatcher on_raw_message
take_in ps conn (message id bytes) = post_all conn (on_raw_message (parse ps) id bytes dispatcher)
take_in ps conn shutdown = []
take_in ps conn discarded = []

unfoldable pub take_all : Parsers → ℕ → List Codec.Event → List Post
unfolding take_in
take_all ps conn [] = []
take_all ps conn (e ∷ es) = take_in ps conn e ++ take_all ps conn es

-- The connection callback.
unfoldable pub on_connection : ℕ → Bool → List Post
on_connection conn true = []
on_connection conn false = hops (disconnects conn) ∷ []
