-- ===== src/Room/Defs.antt =====
-- game/Room.h: the state of a room, what it sends, and the messages of game.proto that it fills in. A
-- connection is its name, a number.
use my_game_server.Base.{ℕ, Bool, List, ◌++◌, Option, none, some}
use my_game_server.Base.Map
use my_game_server.Base.Map.{Map}
use my_game_server.BattleSim.Defs.{Floats, Player, Projectile, Sim}

module _ (fl : Floats) where
  open fl use {Float, of_int}

  -- `pb::PlayerState`.
  pub record PlayerState : Type 0 where
    pub player_id : ℕ
    pub x : Float
    pub y : Float
    pub hp : ℕ
    pub last_input_seq : ℕ

  -- `pb::ProjectileState`.
  pub record ProjectileState : Type 0 where
    pub projectile_id : ℕ
    pub owner_id : ℕ
    pub x : Float
    pub y : Float
    pub velocity_x : Float
    pub velocity_y : Float

  -- `pb::StateSnapshot`.
  pub record Snapshot : Type 0 where
    pub tick : ℕ
    pub full : Bool
    pub players : List PlayerState
    pub projectiles : List ProjectileState
    pub removed_projectile_ids : List ℕ

  pub data Message : Type 0 where
    enter_room : ℕ → List ℕ → Message
    snapshot : Snapshot → Message
    battle_end : ℕ → Message

  -- What a room does to the outside: a message to a connection, the ticker that is set up, the task that
  -- stops it, and the callback `onEnd_`.
  pub data Effect : Type 0 where
    to : ℕ → Message → Effect
    sets_ticker queues_stop : Effect
    on_end : ℕ → ℕ → Effect

  pub record Room : Type 0 where
    pub id : ℕ
    pub sim : Sim fl
    pub conns : Map (Option ℕ)
    pub ticker : Bool
    pub tick : ℕ
    pub ended : Bool
    pub out : List Effect

  -- Fresh messages, with the defaults of proto3.
  abbrev pub no_player_state : PlayerState
  no_player_state = record { player_id = 0; x = of_int 0; y = of_int 0; hp = 0; last_input_seq = 0 }

  abbrev pub no_projectile_state : ProjectileState
  no_projectile_state = record {
    projectile_id = 0;
    owner_id = 0;
    x = of_int 0;
    y = of_int 0;
    velocity_x = of_int 0;
    velocity_y = of_int 0;
  }

  abbrev pub fill_found : Option (Player fl) → PlayerState → PlayerState
  fill_found none o = o
  fill_found (some p) o = record {
    player_id = p.id;
    x = p.x;
    y = p.y;
    hp = p.hp;
    last_input_seq = p.seq;
  }

  -- `BattleSim::fillState`.
  unfoldable pub fill_state : Sim fl → ℕ → PlayerState → PlayerState
  fill_state s id o = fill_found (Map.lookup id s.players) o

  abbrev pub fill_projectile_found : Option (Projectile fl) → ProjectileState → ProjectileState
  fill_projectile_found none o = o
  fill_projectile_found (some b) o = record {
    projectile_id = b.id;
    owner_id = b.owner_id;
    x = b.x;
    y = b.y;
    velocity_x = b.vx;
    velocity_y = b.vy;
  }

  -- `BattleSim::fillProjectileState`.
  unfoldable pub fill_projectile_state : Sim fl → ℕ → ProjectileState → ProjectileState
  fill_projectile_state s id o = fill_projectile_found (Map.lookup id s.projectiles) o

  unfoldable pub emit : List Effect → Room → Room
  emit es r = record r { out = r.out ++ es }
