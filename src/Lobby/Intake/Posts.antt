-- ===== src/Lobby/Intake/Posts.antt =====
-- game/GameServer.cc with proto/ProtobufCodec.cc and proto/Dispatcher.h: from the bytes of a client to the
-- calls that reach the lobby.
use my_game_server.Base.{
  ℕ, ◌==◌, if◌then◌else◌, Bool, List, [], ◌∷◌, ◌++◌, Option, none, some, ◌≡◌, refl, ap, ◌∙◌, All,
  arith,
}
use my_game_server.Base.Map.{lookup, insert}
use my_game_server.Buffer.{Buffer, new}
use my_game_server.Codec
use my_game_server.Codec.{message, receive}
use my_game_server.Codec.Stream.{Message, IsSendable, messages, flatten, frames, receive-frames}
use my_game_server.Dispatcher.{register_handler, on_raw_message, call_found}
use my_game_server.Lobby.Calls.{logs_in, reconnects, asks_match, sends_input, beats}
use my_game_server.Lobby.Intake.{
  Parsers, parse, dispatcher, Post, hops, queries, handle, post_all, take_in, take_all,
}

unfoldable pub post_of {ℓ} : {A : Type ℓ} → (A → Post) → Option A → List Post
post_of f none = []
post_of f (some a) = f a ∷ []

-- What a message of a client is meant to do.
unfoldable pub meant : Parsers → ℕ → Message → List Post
unfolding post_of
meant ps conn (id, body) =
    if id == 2
    then post_of (λ ms. hops (beats conn ms)) (ps.heartbeat body)
    else if id == 3
    then post_of (λ a. hops (logs_in conn a)) (ps.login body)
    else if id == 5
    then post_of (λ r. hops (reconnects conn r.0 r.1)) (ps.reconnect body)
    else if id == 10
    then (if ps.match body then hops (asks_match conn) ∷ [] else [])
    else if id == 20
    then post_of (λ i. hops (sends_input conn i)) (ps.input body)
    else if id == 30
    then post_of (λ n. queries conn n) (ps.leaderboard body)
    else []

unfoldable pub meant_all : Parsers → ℕ → List Message → List Post
meant_all ps conn [] = []
meant_all ps conn (m ∷ ms) = meant ps conn m ++ meant_all ps conn ms

-- The table.
lookup-dispatcher :
    (id : ℕ)
    → lookup id dispatcher.handlers ≡ (
        if id == 2
        then some (2, 2)
        else if id == 3
        then some (3, 3)
        else if id == 5
        then some (5, 5)
        else if id == 10
        then some (10, 10)
        else if id == 20
        then some (20, 20)
        else if id == 30
        then some (30, 30)
        else none)
unfolding dispatcher register_handler lookup insert
lookup-dispatcher id = ground arith

-- What becomes of a message for which the handler `t` is registered.
abbrev posted : Parsers → ℕ → ℕ → ℕ → List ℕ → List Post
unfolding parse dispatcher post_all
posted ps conn t id body = post_all conn (call_found (parse ps) (some (t, t)) id body dispatcher)

module _ (ps : Parsers) (conn id : ℕ) (body : List ℕ) where
  found-login : posted ps conn 3 id body ≡ post_of (λ a. hops (logs_in conn a)) (ps.login body)
  unfolding parse handle post_all dispatcher post_of register_handler
  found-login = ground arith

  found-reconnect :
      posted ps conn 5 id body ≡ post_of (λ r. hops (reconnects conn r.0 r.1)) (ps.reconnect body)
  unfolding parse handle post_all dispatcher post_of register_handler
  found-reconnect = ground arith

  found-match :
      posted ps conn 10 id body ≡ (if ps.match body then hops (asks_match conn) ∷ [] else [])
  unfolding parse handle post_all dispatcher post_of register_handler
  found-match = ground arith

  found-input : posted ps conn 20 id body ≡ post_of (λ i. hops (sends_input conn i)) (ps.input body)
  unfolding parse handle post_all dispatcher post_of register_handler
  found-input = ground arith

  found-heartbeat :
      posted ps conn 2 id body ≡ post_of (λ ms. hops (beats conn ms)) (ps.heartbeat body)
  unfolding parse handle post_all dispatcher post_of register_handler
  found-heartbeat = ground arith

  found-leaderboard :
      posted ps conn 30 id body ≡ post_of (λ n. queries conn n) (ps.leaderboard body)
  unfolding parse handle post_all dispatcher post_of register_handler
  found-leaderboard = ground arith

  none_found : post_all conn (call_found (parse ps) none id body dispatcher) ≡ []
  unfolding post_all dispatcher register_handler
  none_found = refl

  take_in-meant : take_in ps conn (message id body) ≡ meant ps conn (id, body)
  unfolding take_in meant on_raw_message
  take_in-meant =
      ap (λ o. post_all conn (call_found (parse ps) o id body dispatcher)) (lookup-dispatcher id)
      ∙ ground (
        arith, found-login, found-reconnect, found-match, found-input, found-heartbeat,
        found-leaderboard, none_found,
      )

take_all-messages :
    (ps : Parsers) (conn : ℕ) (ms : List Message)
    → take_all ps conn (messages ms) ≡ meant_all ps conn ms
unfolding take_all meant_all
take_all-messages ps conn [] = refl
take_all-messages ps conn ((id, body) ∷ ms) =
    ap (λ l. l ++ take_all ps conn (messages ms)) (take_in-meant ps conn id body)
    ∙ ap (λ l. meant ps conn (id, body) ++ l) (take_all-messages ps conn ms)

-- What a client sends on a new connection reaches the lobby as it is meant, however TCP cuts the bytes:
-- each message whose id is that of a request, and whose body parses as that request, becomes the call of
-- its handler for this connection, in the order of sending; any other message becomes nothing.
pub take_all-receive :
    (ps : Parsers) (conn : ℕ) (b : Bool) (ms : List Message) (cs : List (List ℕ))
    → All IsSendable ms
    → flatten cs ≡ frames ms
    → (es : List Codec.Event) × (r : Buffer) × (receive b cs new ≡ some (es, r))
      × (take_all ps conn es ≡ meant_all ps conn ms)
take_all-receive ps conn b ms cs h e =
    let (r, ran, v, none_left) = receive-frames b ms cs h e in
    (messages ms, r, ran, take_all-messages ps conn ms)
