-- ===== src/BattleSim/Attack.antt =====
-- game/BattleSim.cc: the third loop of `step`. A player whose cooldown is over fires a projectile.
use my_game_server.Base.{
  ℕ, ◌+◌, ltb, ◌==◌, if◌then◌else◌, Bool, not, ◌&&◌, ◌||◌, [], ◌∷◌, Option, none, some,
}
use my_game_server.Base.Map
use my_game_server.Base.Map.{Map}
use my_game_server.BattleSim.Defs.{Floats, Player, Projectile, is_alive, attack_cd}

module _ (fl : Floats) where
  open fl use {Float, of_int, tiny, infinity, add, sub, mul, div, hypot, lt}

  -- The nearest other player who is alive, of the players that are left to look at.
  unfoldable pub nearest :
      ℕ → Player fl → Map (Player fl) → Float → Option (Player fl) → Option (Player fl)
  nearest id p [] best target = target
  nearest id p ((tid, t) ∷ m) best target =
      let d = hypot (sub t.x p.x) (sub t.y p.y) in
      let skip = tid == id || not (is_alive fl t) in
      let closer = not skip && lt d best in
      nearest id p m (if closer then d else best) (if closer then some t else target)

  -- The direction of the shot.
  abbrev pub aim : Player fl → Option (Player fl) → Float × Float
  aim p none = (p.facing_x, p.facing_y)
  aim p (some t) =
      let dx = sub t.x p.x in
      let dy = sub t.y p.y in
      let len = hypot dx dy in if lt tiny len then (div dx len, div dy len) else (dx, dy)

  abbrev pub projectile_speed : Float
  projectile_speed = of_int 60

  unfoldable pub shot : ℕ → ℕ → Player fl → Float × Float → Projectile fl
  shot projectile_id id p (dx, dy) = record {
    id = projectile_id;
    owner_id = id;
    x = add p.x (mul dx (of_int 2));
    y = add p.y (mul dy (of_int 2));
    vx = mul dx projectile_speed;
    vy = mul dy projectile_speed;
    traveled = of_int 0;
  }

  -- Whether the player shoots now.
  unfoldable pub shoots : Player fl → Bool
  shoots p = (is_alive fl p && p.has_input) && (p.input.attack && not (ltb 0 p.cd_ms))

  pub record Shooting : Type 0 where
    pub players : Map (Player fl)
    pub projectiles : Map (Projectile fl)
    pub next_projectile_id : ℕ

  -- The loop changes cooldowns only, so that the targets are looked up in the players at its start.
  unfoldable pub attack_all : Map (Player fl) → Map (Player fl) → Map (Projectile fl) → ℕ → Shooting
  attack_all all [] projectiles next_id = record {
    players = [];
    projectiles = projectiles;
    next_projectile_id = next_id;
  }
  attack_all all ((id, p) ∷ m) projectiles next_id =
      let fires = shoots p in
      let bullet = shot next_id id p (aim p (nearest id p all infinity none)) in
      let rest =
        attack_all all m (if fires then Map.insert next_id bullet projectiles else projectiles)
          (if fires then next_id + 1 else next_id) in
      record rest {
        players = (id, (if fires then record p { cd_ms = attack_cd } else p)) ∷ rest.players;
      }
