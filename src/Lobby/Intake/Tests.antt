-- ===== src/Lobby/Intake/Tests.antt =====
-- game/GameServer.cc, the constructor: a login, a heartbeat that does not parse and a message with an
-- unknown id, in two chunks.
use my_game_server.Base.{ℕ, true, List, [], ◌∷◌, none, some, ◌≡◌, refl, arith}
use my_game_server.Buffer.{Buffer, new}
use my_game_server.Codec
use my_game_server.Codec.{receive, encode, u32_bytes, u16_bytes}
use my_game_server.Codec.Stream.{Message}
use my_game_server.Lobby.Calls.{logs_in}
use my_game_server.Lobby.Intake.{Parsers, hops, take_all}
use my_game_server.Lobby.Intake.Posts.{meant_all, meant, post_of, take_all-receive}

abbrev parsers : Parsers
parsers = record {
  login = λ b. some b;
  reconnect = λ b. none;
  match = λ b. true;
  input = λ b. none;
  heartbeat = λ b. none;
  leaderboard = λ b. none;
}

abbrev three : List Message
three = (3, 65 ∷ []) ∷ (2, []) ∷ (31, []) ∷ []

abbrev chunks : List (List ℕ)
chunks =
    (0 ∷ 0 ∷ 0 ∷ []) ∷ (3 ∷ 0 ∷ 3 ∷ 65 ∷ 0 ∷ 0 ∷ 0 ∷ 2 ∷ 0 ∷ 2 ∷ 0 ∷ 0 ∷ 0 ∷ 2 ∷ 0 ∷ 31 ∷ []) ∷ []

take_all-receive_example :
    (es : List Codec.Event) × (r : Buffer) × (receive true chunks new ≡ some (es, r))
    × (take_all parsers 7 es ≡ hops (logs_in 7 (65 ∷ [])) ∷ [])
unfolding meant_all meant post_of encode u32_bytes u16_bytes
take_all-receive_example = take_all-receive parsers 7 true three chunks (omega arith) refl
