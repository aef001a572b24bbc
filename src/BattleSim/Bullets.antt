-- ===== src/BattleSim/Bullets.antt =====
-- game/BattleSim.cc: which projectiles there are after a step, and which were removed.
use my_game_server.Base.{
  ℕ, ◌+◌, ◌≤◌, ltb, leb, Bool, true, false, ◌&&◌, ◌||◌, List, [], ◌∷◌, Option, none, some, ◌≡◌,
  refl, ◌∙◌, arith, Bool-cases, inl, inr, Option-cases,
}
use my_game_server.Base.Map.{Map, lookup, insert, keys, has, has-insert, has-erase, has_of_lookup}
use my_game_server.Base.IdSet.{mem, mem-append, mem_single, mem-nil}
use my_game_server.BattleSim.Defs.{Floats, Player, Projectile, Sim}
use my_game_server.BattleSim.Move.{move_all}
use my_game_server.BattleSim.Attack.{attack_all, shoots, Shooting, shot, aim, nearest}
use my_game_server.BattleSim.Flight.{
  Flying, find_hit, path_of, advance_found, advance_one, advance_all, land, fly_on, spent,
  drop_projectile, seg_len_sq,
}
use my_game_server.BattleSim.{shooting, flying, step}

module _ (fl : Floats) where
  open fl use {Float, infinity}

  -- A projectile is in flight or was removed in this step, and not both.
  abbrev pub known : ℕ → Flying fl → Bool
  known j f = has j f.projectiles || mem j f.removed

  abbrev pub twice : ℕ → Flying fl → Bool
  twice j f = has j f.projectiles && mem j f.removed

  abbrev Same : ℕ → Flying fl → Flying fl → Type 0
  Same j f g = (known j g ≡ known j f) × (twice j g ≡ twice j f)

  drop-Same :
      (id j : ℕ) (f : Flying fl)
      → has id f.projectiles ≡ true
      → twice j f ≡ false
      → Same j f (drop_projectile fl id f)
  drop-Same id j f h d =
      ground
        (arith, has-erase id j f.projectiles, mem-append j f.removed (id ∷ []), mem_single j id)

  store-Same :
      (id j : ℕ) (b : Projectile fl) (f : Flying fl)
      → has id f.projectiles ≡ true
      → Same j f (record f { projectiles = insert id b f.projectiles })
  store-Same id j b f h = ground (arith, has-insert id j b f.projectiles)

  fly_on-Same :
      (dt : Float) (id j : ℕ) (b : Projectile fl) (f : Flying fl)
      → has id f.projectiles ≡ true
      → twice j f ≡ false
      → Same j f (fly_on fl dt id b f)
  fly_on-Same dt id j b f h d = elim (Bool-cases (spent fl b')) [
    | inl over ↦
        let (k1, t1) = store-Same id j b' f h in
        let (k2, t2) =
          drop-Same id j g (ground (arith, has-insert id id b' f.projectiles)) (t1 ∙ d) in
        rw over (k2 ∙ k1, t2 ∙ t1)
    | inr on ↦ rw on (store-Same id j b' f h)
  ]
    where
      b' : Projectile fl
      b' = record b {
        x = fl.add b.x (fl.mul b.vx dt);
        y = fl.add b.y (fl.mul b.vy dt);
        traveled = fl.add b.traveled (fl.sqrt (seg_len_sq fl (path_of fl dt b)));
      }

      g : Flying fl
      g = record f { projectiles = insert id b' f.projectiles }

  advance_one-Same :
      (dt : Float) (id j : ℕ) (f : Flying fl)
      → twice j f ≡ false
      → Same j f (advance_one fl dt id f)
  unfolding advance_one
  advance_one-Same dt id j f d = elim (Option-cases (lookup id f.projectiles)) [
    | inl e ↦ rw (e, advance_found) (refl, refl)
    | inr (b, e) ↦
        rw (e, advance_found)
          (by_hit b (has_of_lookup id b f.projectiles e)
            (find_hit fl (path_of fl dt b) b.owner_id f.players none infinity))
  ]
    where
      by_hit :
          (b : Projectile fl)
          → has id f.projectiles ≡ true
          → (o : Option ℕ) → Same j f (land fl dt id b o f)
      by_hit b h none = fly_on-Same dt id j b f h d
      by_hit b h (some t) = drop-Same id j f h d

  advance_all-Same :
      (dt : Float) (ids : List ℕ) (j : ℕ) (f : Flying fl)
      → twice j f ≡ false
      → Same j f (advance_all fl dt ids f)
  unfolding advance_all
  advance_all-Same dt [] j f d = (refl, refl)
  advance_all-Same dt (id ∷ ids) j f d =
      let (k1, t1) = advance_one-Same dt id j f d in
      let (k2, t2) = advance_all-Same dt ids j (advance_one fl dt id f) (t1 ∙ d) in
      (k2 ∙ k1, t2 ∙ t1)

  -- Fired were the ids from `next` on, each for one projectile.
  abbrev Fired : Map (Projectile fl) → ℕ → ℕ → Shooting fl → Type 0
  Fired b next j r =
      (next ≤ r.next_projectile_id)
      × (has j r.projectiles ≡ (has j b || (leb next j && ltb j r.next_projectile_id)))

  Fired-next :
      (b : Map (Projectile fl)) (next j : ℕ) (bullet : Projectile fl) (r : Shooting fl)
      → Fired (insert next bullet b) (next + 1) j r
      → Fired b next j r
  Fired-next b next j bullet r h = ground (arith, has-insert next j bullet b)

  attack_all-has :
      (all m : Map (Player fl)) (b : Map (Projectile fl)) (next j : ℕ)
      → Fired b next j (attack_all fl all m b next)
  unfolding attack_all
  attack_all-has all [] b next j = ground arith
  attack_all-has all ((id, p) ∷ m) b next j = elim (Bool-cases (shoots fl p)) [
    | inl fires ↦
        let bullet = shot fl next id p (aim fl p (nearest fl id p all infinity none)) in
        let r = attack_all fl all m (insert next bullet b) (next + 1) in
        rw fires
          (Fired-next b next j bullet r (attack_all-has all m (insert next bullet b) (next + 1) j))
    | inr holds ↦ rw holds (attack_all-has all m b next j)
  ]

  shooting-has :
      (ms : ℕ) (s : Sim fl) (j : ℕ)
      → let r = shooting fl ms s in
        (s.next_projectile_id ≤ r.next_projectile_id)
        × (has j r.projectiles
            ≡ (has j s.projectiles || (leb s.next_projectile_id j && ltb j r.next_projectile_id)))
  unfolding shooting
  shooting-has ms s j = attack_all-has _ _ s.projectiles s.next_projectile_id j

  -- Whatever id: after a step, a projectile with it is in flight or in the list of removed ones, and not
  -- in both, exactly if it was in flight before the step or is one of those fired in the step, whose ids
  -- are the numbers from the old counter up to the new one.
  pub step_accounts :
      (ms : ℕ) (s : Sim fl) (j : ℕ)
      → let s' = (step fl ms s).0 in
        ((has j s'.projectiles || mem j s'.removed)
          ≡ (has j s.projectiles || (leb s.next_projectile_id j && ltb j s'.next_projectile_id)))
        × ((has j s'.projectiles && mem j s'.removed) ≡ false)
        × (s.next_projectile_id ≤ s'.next_projectile_id)
  unfolding step flying
  step_accounts ms s j =
      let shots = shooting fl ms s in
      let start : Flying fl = record {
        players = shots.players;
        projectiles = shots.projectiles;
        removed = [];
        changed = (move_all fl (fl.div (fl.of_int ms) (fl.of_int 1000)) s.players []).1;
      } in
      let (k, t) =
        advance_all-Same (fl.div (fl.of_int ms) (fl.of_int 1000)) (keys s.projectiles) j start
          (ground (arith, mem-nil j)) in
      let (up, new) = shooting-has ms s j in
      (k ∙ ground (arith, mem-nil j, new), t ∙ ground (arith, mem-nil j), up)
