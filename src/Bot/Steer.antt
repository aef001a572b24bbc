-- ===== src/Bot/Steer.antt =====
-- examples/bot_client.cc: the input that the client decides on.
use my_game_server.Base.{
  ℕ, ltb, ◌==◌, if◌then◌else◌, Bool, not, ◌||◌, List, [], ◌∷◌, Option, none, some,
}
use my_game_server.BattleSim.Defs.{Floats, Input}
use my_game_server.Room.Defs.{PlayerState}

module _ (fl : Floats) where
  open fl use {Float, of_int, sub, div, hypot, lt, le}

  -- `Me`, less the token.
  pub record Me : Type 0 where
    pub pid : ℕ
    pub x : Float
    pub y : Float
    pub hp : ℕ

  abbrev pub distance : Me → PlayerState fl → Float
  distance me p = hypot (sub p.x me.x) (sub p.y me.y)

  -- Whether the loop passes over the player.
  abbrev pub passes : Me → PlayerState fl → Bool
  passes me p = p.player_id == me.pid || not (ltb 0 p.hp)

  abbrev pub closer : Me → PlayerState fl → Float → Bool
  closer me p best = if passes me p then Bool.false else lt (distance me p) best

  -- The loop: the enemy found so far, and how far it is.
  unfoldable pub nearest_enemy :
      Me → List (PlayerState fl) → Option (PlayerState fl) → Float → Option (PlayerState fl) × Float
  nearest_enemy me [] enemy best = (enemy, best)
  nearest_enemy me (p ∷ ps) enemy best =
      nearest_enemy me ps (if closer me p best then some p else enemy)
        (if closer me p best then distance me p else best)

  -- The input toward an enemy at the distance `best`; `seq` is the number that it is sent with.
  abbrev pub toward : Me → PlayerState fl → Float → ℕ → Input fl
  toward me enemy best seq =
      let dx = sub enemy.x me.x in
      let dy = sub enemy.y me.y in
      let len = hypot dx dy in
      record {
        seq = seq;
        move_x = if lt (of_int 1) len then div dx len else of_int 0;
        move_y = if lt (of_int 1) len then div dy len else of_int 0;
        attack = le best (of_int 14);
      }

  abbrev pub input_for : Me → Option (PlayerState fl) × Float → Option (ℕ → Input fl)
  input_for me (none, best) = none
  input_for me (some enemy, best) = some (toward me enemy best)

  unfoldable pub decide : Me → List (PlayerState fl) → Option (ℕ → Input fl)
  unfolding nearest_enemy
  decide me ps = input_for me (nearest_enemy me ps none (of_int 1000000000))
