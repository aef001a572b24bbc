-- ===== src/BattleSim/Tests.antt =====
-- game/BattleSim.cc at a concrete simulation, over whole numbers for floats.
use my_game_server.Base.{
  ℕ, ◌+◌, ◌*◌, ◌≤◌, ltb, leb, true, false, ◌||◌, ◌&&◌, [], ◌∷◌, ◌≡◌, refl, arith, All,
}
use my_game_server.Base.Map.{lookup, insert, erase, keys, has}
use my_game_server.Base.IdSet.{mem}
use my_game_server.BattleSim.Defs.{Player, Projectile, Sim, no_input}
use my_game_server.BattleSim.Move.{note_changed, stands_still, move_player, move_all, cool_down}
use my_game_server.BattleSim.Attack.{attack_all, shoots}
use my_game_server.BattleSim.Flight.{
  path_of, closest, within_radius, hits, find_hit, spent, advance_one, advance_all,
}
use my_game_server.BattleSim.{shooting, flying, step, winner_or_zero, count_alive}
use my_game_server.BattleSim.Whole.{whole}
use my_game_server.BattleSim.Health.{health}
use my_game_server.BattleSim.Stalemate.{steps, inputs, do_ops, stalemate}
use my_game_server.BattleSim.Damage.{Volley, step-Volley}
use my_game_server.BattleSim.Collision.{Orders}
use my_game_server.BattleSim.Bullets.{step_accounts}
use my_game_server.BattleSim.Arena.{Compares, InArena, move_all-InArena}

leb_self : (a : ℕ) → leb a a ≡ true
leb_self a = ground arith

leb_turned : (a b : ℕ) → ltb a b ≡ false → leb b a ≡ true
leb_turned a b e = ground arith

-- Each whole number is finite.
abbrev whole-Compares : Compares whole
whole-Compares = record {
  Finite = λ a. Unit;
  total = λ a b h k e. leb_turned a b e;
  finite_number = λ a h. leb_self a;
  small = λ n h. tt;
  ordered = refl;
  between = λ a h k. tt;
  div_down = λ a b h k. tt;
  mul_number = λ a b h k. leb_self (a * b);
  mul_positive = λ a b h k l. leb_self (a * b);
  add_number = λ a b h k. leb_self (a + b);
}

whole-Orders : Orders whole
whole-Orders = record { irrefl = λ a. ground arith; trans = λ a b c h k. ground arith }

abbrev player : ℕ → ℕ → Player whole
player i at = record {
  id = i;
  x = at;
  y = 50;
  hp = 25;
  seq = 0;
  cd_ms = 0;
  facing_x = 1;
  facing_y = 0;
  input = no_input whole;
  has_input = false;
}

abbrev bullet : ℕ → ℕ → ℕ → Projectile whole
bullet i owner at = record {
  id = i;
  owner_id = owner;
  x = at;
  y = 50;
  vx = 0;
  vy = 0;
  traveled = 0;
}

-- Two players with one hit to live, and a projectile of each at the other.
abbrev duel : Sim whole
duel = record {
  players = (1, player 1 30) ∷ (2, player 2 70) ∷ [];
  projectiles = (5, bullet 5 1 70) ∷ (6, bullet 6 2 30) ∷ [];
  removed = [];
  next_projectile_id = 7;
}

-- Both die in the same step, and `winnerOrZero` says 0.
duel_runs :
    (health whole (step whole 50 duel).0.players ≡ (1, 0) ∷ (2, 0) ∷ [])
    × ((step whole 50 duel).1 ≡ 1 ∷ 2 ∷ [])
    × ((step whole 50 duel).0.removed ≡ 5 ∷ 6 ∷ [])
    × (winner_or_zero whole (step whole 50 duel).0 ≡ 0)
unfolding health step flying shooting move_all move_player stands_still cool_down attack_all shoots
    advance_all advance_one find_hit hits path_of closest within_radius spent note_changed lookup
    insert erase keys winner_or_zero count_alive
duel_runs = (refl, refl, refl, refl)

abbrev lost : Sim whole
lost = record duel {
  players = (1, record (player 1 30) { hp = 0 }) ∷ (2, record (player 2 70) { hp = 0 }) ∷ [];
}

stalemate_runs :
    (health whole (do_ops whole (steps 50 ∷ inputs 1 (no_input whole) ∷ steps 50 ∷ []) lost).players
      ≡ health whole lost.players)
    × (winner_or_zero whole
          (do_ops whole (steps 50 ∷ inputs 1 (no_input whole) ∷ steps 50 ∷ []) lost)
        ≡ 0)
unfolding health
stalemate_runs =
    stalemate whole (steps 50 ∷ inputs 1 (no_input whole) ∷ steps 50 ∷ []) lost (refl, (refl, tt))

step-Volley_example :
    let shots = shooting whole 50 duel in
    (health whole shots.players ≡ health whole duel.players)
    × Volley whole 0 shots.projectiles (5 ∷ 6 ∷ []) shots.players (step whole 50 duel).0.players
unfolding keys mem
step-Volley_example = step-Volley whole whole-Orders 50 duel (refl, (refl, tt)) (refl, (refl, tt))

step_accounts_example :
    let s' = (step whole 50 duel).0 in
    ((has 5 s'.projectiles || mem 5 s'.removed)
      ≡ (has 5 duel.projectiles || (leb duel.next_projectile_id 5 && ltb 5 s'.next_projectile_id)))
    × ((has 5 s'.projectiles && mem 5 s'.removed) ≡ false)
    × (duel.next_projectile_id ≤ s'.next_projectile_id)
step_accounts_example = step_accounts whole 50 duel 5

-- The first player runs against the wall.
abbrev runner : Player whole
runner = record (player 1 90) {
  has_input = true;
  input = record (no_input whole) { move_x = 5; move_y = 0 };
}

move_all-InArena_example :
    All (InArena whole whole-Compares) (move_all whole 1 ((1, runner) ∷ (2, player 2 70) ∷ []) []).0
move_all-InArena_example =
    move_all-InArena whole whole-Compares 1 tt refl ((1, runner) ∷ (2, player 2 70) ∷ []) []
      ((((refl, refl), (refl, refl)), (tt, tt)), ((((refl, refl), (refl, refl)), (tt, tt)), tt))
