-- ===== src/BattleSim.antt =====
-- game/BattleSim.h and game/BattleSim.cc: the battle simulation, without IO and threads.
pub mod Defs
pub mod Move
pub mod Attack
pub mod Flight
pub mod Health
pub mod Stalemate
pub mod Collision
pub mod Shots
pub mod Damage
pub mod Arena
pub mod Bullets
pub mod Changes
pub mod Whole
mod Tests
use my_game_server.Base.{
  ℕ, ◌+◌, ltb, leb, ◌==◌, if◌then◌else◌, Bool, true, false, not, List, [], ◌∷◌, Option, none, some,
  suc,
}
use my_game_server.Base.Map
use my_game_server.Base.Map.{Map}
use Defs.{Floats, Input, Player, Projectile, Sim, is_alive, no_input, max_hp}
use Move.{move_all, cool_down}
use Attack.{Shooting, attack_all}
use Flight.{Flying, advance_all}

module _ (fl : Floats) where
  open fl use {Float, of_int, minus_one, half, mul, div, le}

  unfoldable pub add_player : ℕ → Float → Float → Sim fl → Sim fl
  add_player id x y s =
      let p : Player fl = record {
        id = id;
        x = x;
        y = y;
        hp = max_hp;
        seq = 0;
        cd_ms = 0;
        facing_x = if le x (mul (of_int 100) half) then of_int 1 else minus_one;
        facing_y = of_int 0;
        input = no_input fl;
        has_input = false;
      } in
      record s { players = Map.insert id p s.players }

  abbrev pub store_input : ℕ → Input fl → Option (Player fl) → Sim fl → Sim fl
  store_input id i none s = s
  store_input id i (some p) s = record s {
    players = Map.insert id (record p { input = i; has_input = true; seq = i.seq }) s.players;
  }

  unfoldable pub apply_input : ℕ → Input fl → Sim fl → Sim fl
  apply_input id i s = store_input id i (Map.lookup id s.players) s

  -- The parts of `step`, with what they hand on.
  unfoldable pub shooting : ℕ → Sim fl → Shooting fl
  shooting dt_ms s =
      let players =
        cool_down fl dt_ms (move_all fl (div (of_int dt_ms) (of_int 1000)) s.players []).0 in
      attack_all fl players players s.projectiles s.next_projectile_id

  unfoldable pub flying : ℕ → Sim fl → Flying fl
  flying dt_ms s =
      let dt = div (of_int dt_ms) (of_int 1000) in
      let shots = shooting dt_ms s in
      advance_all fl dt (Map.keys s.projectiles) (record {
        players = shots.players;
        projectiles = shots.projectiles;
        removed = [];
        changed = (move_all fl dt s.players []).1;
      })

  -- The state after `step`, and the ids of the players that changed.
  unfoldable pub step : ℕ → Sim fl → Sim fl × List ℕ
  step dt_ms s =
      let f = flying dt_ms s in
      (
        record {
          players = f.players;
          projectiles = f.projectiles;
          removed = f.removed;
          next_projectile_id = (shooting dt_ms s).next_projectile_id;
        },
        f.changed,
      )

  -- The loop of `winnerOrZero`: how many are alive, and the last of them.
  unfoldable pub count_alive : Map (Player fl) → ℕ → ℕ → ℕ × ℕ
  count_alive [] alive last = (alive, last)
  count_alive ((id, p) ∷ m) alive last =
      count_alive m (if is_alive fl p then alive + 1 else alive)
        (if is_alive fl p then id else last)

  unfoldable pub winner_or_zero : Sim fl → ℕ
  winner_or_zero s = let (alive, last) = count_alive s.players 0 0 in if alive == 1 then last else 0

  unfoldable pub player_ids : Sim fl → List ℕ
  player_ids s = Map.keys s.players

  unfoldable pub projectile_ids : Sim fl → List ℕ
  projectile_ids s = Map.keys s.projectiles

  unfoldable pub take_removed_projectile_ids : Sim fl → List ℕ × Sim fl
  take_removed_projectile_ids s = (s.removed, record s { removed = [] })
