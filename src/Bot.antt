-- ===== src/Bot.antt =====
-- examples/bot_client.cc: a client that plays by itself. A message is the value that `ParseFromString`
-- fills in; a session token is a number.
mod Tests
pub mod Steer
pub mod Socket
pub mod Reading
pub mod Merge
pub mod Track
pub mod Follow
pub mod Replica
pub mod Tasks
pub mod Ticks
pub mod Copy
use my_game_server.Base.{
  ℕ, suc, ◌+◌, ◌-◌, ◌%◌, ◌^◌, ltb, ◌==◌, if◌then◌else◌, Bool, true, false, not, ◌&&◌, List, [], ◌∷◌,
  ◌++◌, Option, none, some,
}
use my_game_server.BattleSim.Defs.{Floats, Input}
use my_game_server.Room.Defs.{Snapshot, PlayerState, Message, enter_room, snapshot, battle_end}
use Steer.{Me, decide}

-- The difference of two times, of type `uint64_t`.
unfoldable pub since : ℕ → ℕ → ℕ
since now before = (now + 2 ^ 64 - before) % 2 ^ 64

abbrev pub past_drop : Option ℕ → ℕ → Bool
past_drop none ms = false
past_drop (some after) ms = ltb after ms

abbrev pub is_done : Option ℕ → Bool
is_done none = false
is_done (some code) = true

module _ (fl : Floats) where
  open fl use {Float, of_int}

  -- What the server sends: `LoginResp` with its code, player and token, or a message of a room. A match
  -- that timed out is an `EnterRoom` of the room 0.
  pub data Heard : Type 0 where
    login_resp : ℕ → ℕ → ℕ → Heard
    of_room : Message fl → Heard

  -- What the client does: messages that it sends, and the connection that it closes and opens anew.
  pub data Act : Type 0 where
    match_req : ℕ → Act
    reconnects : ℕ → ℕ → Act
    heartbeat : ℕ → Act
    input : Input fl → Act

  -- The variables of `main`. `done` is the value that `main` returned.
  pub record Bot : Type 0 where
    pub me : Me fl
    pub token : ℕ
    pub drop_after_ms : Option ℕ
    pub in_room : Bool
    pub dropped : Bool
    pub enter_ms : ℕ
    pub last_input_ms : ℕ
    pub last_hb_ms : ℕ
    pub seq : ℕ
    pub world : Snapshot fl
    pub done : Option ℕ

  abbrev pub no_world : Snapshot fl
  no_world = record {
    tick = 0;
    full = false;
    players = [];
    projectiles = [];
    removed_projectile_ids = [];
  }

  abbrev pub new_bot : Option ℕ → Bot
  new_bot drop_after = record {
    me = record { pid = 0; x = of_int 0; y = of_int 0; hp = 100 };
    token = 0;
    drop_after_ms = drop_after;
    in_room = false;
    dropped = false;
    enter_ms = 0;
    last_input_ms = 0;
    last_hb_ms = 0;
    seq = 0;
    world = no_world;
    done = none;
  }

  -- The inner loop of `mergeSnapshot`: every entry of the player is replaced.
  unfoldable pub replace_all : PlayerState fl → List (PlayerState fl) → List (PlayerState fl)
  replace_all p [] = []
  replace_all p (w ∷ ws) = (if w.player_id == p.player_id then p else w) ∷ replace_all p ws

  -- Whether it found one.
  unfoldable pub found : ℕ → List (PlayerState fl) → Bool
  found id [] = false
  found id (w ∷ ws) = if w.player_id == id then true else found id ws

  unfoldable pub merge_one : PlayerState fl → List (PlayerState fl) → List (PlayerState fl)
  unfolding replace_all found
  merge_one p ws = if found p.player_id ws then replace_all p ws else ws ++ (p ∷ [])

  unfoldable pub merge_all : List (PlayerState fl) → List (PlayerState fl) → List (PlayerState fl)
  unfolding merge_one
  merge_all [] ws = ws
  merge_all (p ∷ ps) ws = merge_all ps (merge_one p ws)

  -- `mergeSnapshot`.
  unfoldable pub merge_snapshot : Snapshot fl → Snapshot fl → Snapshot fl
  unfolding merge_all
  merge_snapshot s world =
      if s.full then s else record world { players = merge_all s.players world.players }

  -- The loop that copies the own entry.
  unfoldable pub find_me : List (PlayerState fl) → Me fl → Me fl
  find_me [] me = me
  find_me (p ∷ ps) me =
      find_me ps (if p.player_id == me.pid then record me { x = p.x; y = p.y; hp = p.hp } else me)

  -- The `switch` on a message, at the time `now`.
  unfoldable pub on_message : ℕ → Heard → Bot → Bot × List Act
  unfolding merge_snapshot find_me
  on_message now (login_resp code pid token) b =
      if not (code == 0)
      then (record b { done = some 1 }, [])
      else if b.me.pid == 0
      then (record b { me = record b.me { pid = pid }; token = token }, match_req pid ∷ [])
      else (b, [])
  on_message now (of_room (enter_room id ids)) b =
      if id == 0
      then (record b { done = some 1 }, [])
      else (record b { in_room = true; enter_ms = now }, [])
  on_message now (of_room (snapshot s)) b =
      let world = merge_snapshot s b.world in
      (record b { world = world; me = find_me world.players b.me }, [])
  on_message now (of_room (battle_end winner)) b = (record b { done = some 0 }, [])

  unfoldable pub beat : ℕ → Bot → Bot × List Act
  unfolding since
  beat now b =
      if ltb 2000 (since now b.last_hb_ms)
      then (record b { last_hb_ms = now }, heartbeat now ∷ [])
      else (b, [])

  abbrev pub send_input : Option (ℕ → Input fl) → Bot → Bot × List Act
  send_input none b = (b, [])
  send_input (some make) b =
      (record b { seq = (b.seq + 1) % 2 ^ 32 }, input (make ((b.seq + 1) % 2 ^ 32)) ∷ [])

  unfoldable pub fight : ℕ → Bot → Bot × List Act
  unfolding since
  fight now b =
      if b.in_room && (ltb 0 b.me.hp && ltb 100 (since now b.last_input_ms))
      then send_input (decide fl b.me b.world.players) (record b { last_input_ms = now })
      else (b, [])

  -- The part of the loop after the message.
  unfoldable pub act : ℕ → Bot → Bot × List Act
  unfolding beat fight since
  act now b =
      if (b.in_room && not b.dropped) && past_drop b.drop_after_ms (since now b.enter_ms)
      then (record b { dropped = true }, reconnects b.me.pid b.token ∷ [])
      else (let (b', sent) = beat now b in let (b'', sent') = fight now b' in (b'', sent ++ sent'))

  abbrev pub listen : ℕ → Option Heard → Bot → Bot × List Act
  listen now none b = (b, [])
  listen now (some h) b = on_message now h b

  -- After the message: the rest of the loop, if `main` did not return.
  unfoldable pub go_on : ℕ → Bot × List Act → Bot × List Act
  unfolding act
  go_on now (b, sent) =
      let (b', sent') = act now b in if is_done b.done then (b, sent) else (b', sent ++ sent')

  -- One round of the loop: a message or none, read at the time `now`; nothing once `main` returned.
  unfoldable pub turn : ℕ × Option Heard → Bot → Bot × List Act
  unfolding on_message go_on
  turn (now, h) b = if is_done b.done then (b, []) else go_on now (listen now h b)

  unfoldable pub turns : List (ℕ × Option Heard) → Bot → Bot
  unfolding turn
  turns [] b = b
  turns (t ∷ ts) b = turns ts (turn t b).0
