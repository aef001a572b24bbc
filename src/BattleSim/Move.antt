-- ===== src/BattleSim/Move.antt =====
-- game/BattleSim.cc: the first two loops of `step`, movement and cooldown.
use my_game_server.Base.{
  ℕ, ◌-◌, ltb, ◌==◌, if◌then◌else◌, Bool, true, false, not, ◌||◌, List, [], ◌∷◌,
}
use my_game_server.Base.Map.{Map}
use my_game_server.BattleSim.Defs.{Floats, Player, is_alive}

-- `std::set<uint64_t>::insert`: the ids of the set in ascending order.
unfoldable pub note_changed : ℕ → List ℕ → List ℕ
note_changed id [] = id ∷ []
note_changed id (x ∷ xs) =
    if id == x then x ∷ xs else if ltb id x then id ∷ (x ∷ xs) else x ∷ note_changed id xs

module _ (fl : Floats) where
  open fl use {Float, of_int, tiny, add, sub, mul, div, sqrt, hypot, lt, le, eq}

  -- `std::clamp`.
  unfoldable pub clamp : Float → Float → Float → Float
  clamp v lo hi = if lt v lo then lo else if lt hi v then hi else v

  abbrev pub arena : Float
  arena = of_int 100

  abbrev pub speed : Float
  speed = of_int 20

  -- The direction of a player's input, cut to length 1.
  unfoldable pub unit_x : Float → Float → Float
  unit_x mx my =
      let len = sqrt (add (mul mx mx) (mul my my)) in if lt (of_int 1) len then div mx len else mx

  unfoldable pub unit_y : Float → Float → Float
  unit_y mx my =
      let len = sqrt (add (mul mx mx) (mul my my)) in if lt (of_int 1) len then div my len else my

  -- Whether the first loop passes over the player.
  unfoldable pub stands_still : Player fl → Bool
  stands_still p =
      let mx = p.input.move_x in
      let my = p.input.move_y in
      (not (is_alive fl p) || not p.has_input) || lt (sqrt (add (mul mx mx) (mul my my))) tiny

  unfoldable pub moved_to : Float → Float → Float → Float
  unfolding clamp
  moved_to dt at m = clamp (add at (mul (mul m speed) dt)) (of_int 0) arena

  -- One player, and whether its position changed.
  unfoldable pub move_player : Float → Player fl → Player fl × Bool
  move_player dt p =
      let mx = unit_x p.input.move_x p.input.move_y in
      let my = unit_y p.input.move_x p.input.move_y in
      let nx = moved_to dt p.x mx in
      let ny = moved_to dt p.y my in
      let turned : Player fl = record p { facing_x = mx; facing_y = my } in
      if stands_still p
      then (p, false)
      else if not (eq nx p.x) || not (eq ny p.y)
      then (record turned { x = nx; y = ny }, true)
      else (turned, false)

  unfoldable pub move_all : Float → Map (Player fl) → List ℕ → Map (Player fl) × List ℕ
  move_all dt [] changed = ([], changed)
  move_all dt ((id, p) ∷ m) changed =
      let (p', moved) = move_player dt p in
      let (m', changed') = move_all dt m (if moved then note_changed id changed else changed) in
      ((id, p') ∷ m', changed')

  unfoldable pub cool_down : ℕ → Map (Player fl) → Map (Player fl)
  cool_down dt_ms [] = []
  cool_down dt_ms ((id, p) ∷ m) = (id, record p { cd_ms = p.cd_ms - dt_ms }) ∷ cool_down dt_ms m
