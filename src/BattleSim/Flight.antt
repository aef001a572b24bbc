-- ===== src/BattleSim/Flight.antt =====
-- game/BattleSim.cc: the fourth loop of `step`. A projectile flies on, and hits the player whom its
-- path meets first.
use my_game_server.Base.{
  ℕ, ◌-◌, ◌==◌, if◌then◌else◌, Bool, not, ◌&&◌, ◌||◌, List, [], ◌∷◌, ◌++◌, Option, none, some,
}
use my_game_server.Base.Map
use my_game_server.Base.Map.{Map}
use my_game_server.BattleSim.Defs.{Floats, Player, Projectile, is_alive, damage}
use my_game_server.BattleSim.Move.{clamp, note_changed, arena}

module _ (fl : Floats) where
  open fl use {Float, of_int, tiny, infinity, add, sub, mul, div, sqrt, lt, le}

  -- The path of a projectile in this step.
  pub record Segment : Type 0 where
    pub old_x : Float
    pub old_y : Float
    pub seg_x : Float
    pub seg_y : Float

  unfoldable pub path_of : Float → Projectile fl → Segment
  path_of dt b = record {
    old_x = b.x;
    old_y = b.y;
    seg_x = sub (add b.x (mul b.vx dt)) b.x;
    seg_y = sub (add b.y (mul b.vy dt)) b.y;
  }

  abbrev pub seg_len_sq : Segment → Float
  seg_len_sq s = add (mul s.seg_x s.seg_x) (mul s.seg_y s.seg_y)

  -- Where on the path, from 0 to 1, the player is nearest.
  unfoldable pub closest : Segment → Player fl → Float
  unfolding clamp
  closest s t =
      if lt tiny (seg_len_sq s)
      then clamp fl
          (div (add (mul (sub t.x s.old_x) s.seg_x) (mul (sub t.y s.old_y) s.seg_y)) (seg_len_sq s))
          (of_int 0) (of_int 1)
      else of_int 0

  unfoldable pub within_radius : Segment → Player fl → Float → Bool
  within_radius s target t =
      let dx = sub target.x (add s.old_x (mul s.seg_x t)) in
      let dy = sub target.y (add s.old_y (mul s.seg_y t)) in
      le (add (mul dx dx) (mul dy dy)) (mul (of_int 3) (of_int 3))

  -- Whether the player is hit, and earlier on the path than the one found so far.
  unfoldable pub hits : Segment → ℕ → ℕ → Player fl → Float → Bool
  hits s owner tid target hit_t =
      let t = closest s target in
      not (tid == owner || not (is_alive fl target)) && (within_radius s target t && lt t hit_t)

  -- The loop over the players: who was hit so far, and where on the path.
  unfoldable pub find_hit : Segment → ℕ → Map (Player fl) → Option ℕ → Float → Option ℕ
  find_hit s owner [] hit hit_t = hit
  find_hit s owner ((tid, target) ∷ m) hit hit_t =
      let better = hits s owner tid target hit_t in
      find_hit s owner m (if better then some tid else hit)
        (if better then closest s target else hit_t)

  pub record Flying : Type 0 where
    pub players : Map (Player fl)
    pub projectiles : Map (Projectile fl)
    pub removed : List ℕ
    pub changed : List ℕ

  abbrev pub hurt : ℕ → Option (Player fl) → Map (Player fl) → Map (Player fl)
  hurt id none m = m
  hurt id (some p) m = Map.insert id (record p { hp = p.hp - damage }) m

  abbrev pub drop_projectile : ℕ → Flying → Flying
  drop_projectile id f = record f {
    removed = f.removed ++ (id ∷ []);
    projectiles = Map.erase id f.projectiles;
  }

  abbrev pub strike : ℕ → ℕ → Flying → Flying
  strike projectile_id target f = drop_projectile projectile_id (record f {
    players = hurt target (Map.lookup target f.players) f.players;
    changed = note_changed target f.changed;
  })

  unfoldable pub spent : Projectile fl → Bool
  spent b =
      (le (of_int 65) b.traveled || lt b.x (of_int 0))
      || (lt arena' b.x || (lt b.y (of_int 0) || lt arena' b.y))
    where
      arena' : Float
      arena' = arena fl

  abbrev pub fly_on : Float → ℕ → Projectile fl → Flying → Flying
  fly_on dt id b f =
      let s = path_of dt b in
      let b' : Projectile fl = record b {
        x = add b.x (mul b.vx dt);
        y = add b.y (mul b.vy dt);
        traveled = add b.traveled (sqrt (seg_len_sq s));
      } in
      let g : Flying = record f { projectiles = Map.insert id b' f.projectiles } in
      if spent b' then drop_projectile id g else g

  abbrev pub land : Float → ℕ → Projectile fl → Option ℕ → Flying → Flying
  land dt id b none f = fly_on dt id b f
  land dt id b (some target) f = strike id target f

  abbrev pub advance_found : Float → ℕ → Option (Projectile fl) → Flying → Flying
  advance_found dt id none f = f
  advance_found dt id (some b) f =
      land dt id b (find_hit (path_of dt b) b.owner_id f.players none infinity) f

  unfoldable pub advance_one : Float → ℕ → Flying → Flying
  advance_one dt id f = advance_found dt id (Map.lookup id f.projectiles) f

  unfoldable pub advance_all : Float → List ℕ → Flying → Flying
  advance_all dt [] f = f
  advance_all dt (id ∷ ids) f = advance_all dt ids (advance_one dt id f)
