-- ===== src/BattleSim/Defs.antt =====
-- game/BattleSim.h: the state of the simulation. `float` and its operations are those of the
-- platform, taken as a parameter. Hit points are small `int`s that stay at 0 or above. The remaining
-- cooldown is a `float` that only holds whole milliseconds up to 500, which are exact, so it is a
-- number here.
use my_game_server.Base.{ℕ, Bool, false, ltb, List, []}
use my_game_server.Base.Map.{Map}

-- `float`, with the literals of the program.
pub record Floats : Type 1 where
  pub Float : Type 0
  pub of_int : ℕ → Float
  pub minus_one : Float
  pub half : Float
  pub tiny : Float
  pub infinity : Float
  pub add : Float → Float → Float
  pub sub : Float → Float → Float
  pub mul : Float → Float → Float
  pub div : Float → Float → Float
  pub sqrt : Float → Float
  pub hypot : Float → Float → Float
  pub lt : Float → Float → Bool
  pub le : Float → Float → Bool
  pub eq : Float → Float → Bool

abbrev pub max_hp : ℕ
max_hp = 100

abbrev pub damage : ℕ
damage = 25

abbrev pub attack_cd : ℕ
attack_cd = 500

module _ (fl : Floats) where
  open fl use {Float, of_int}

  -- `pb::PlayerInput`.
  pub record Input : Type 0 where
    pub seq : ℕ
    pub move_x : Float
    pub move_y : Float
    pub attack : Bool

  pub record Player : Type 0 where
    pub id : ℕ
    pub x : Float
    pub y : Float
    pub hp : ℕ
    pub seq : ℕ
    pub cd_ms : ℕ
    pub facing_x : Float
    pub facing_y : Float
    pub input : Input
    pub has_input : Bool

  pub record Projectile : Type 0 where
    pub id : ℕ
    pub owner_id : ℕ
    pub x : Float
    pub y : Float
    pub vx : Float
    pub vy : Float
    pub traveled : Float

  pub record Sim : Type 0 where
    pub players : Map Player
    pub projectiles : Map Projectile
    pub removed : List ℕ
    pub next_projectile_id : ℕ

  abbrev pub is_alive : Player → Bool
  is_alive p = ltb 0 p.hp

  abbrev pub no_input : Input
  no_input = record { seq = 0; move_x = of_int 0; move_y = of_int 0; attack = false }

  abbrev pub new : Sim
  new = record { players = []; projectiles = []; removed = []; next_projectile_id = 1 }
