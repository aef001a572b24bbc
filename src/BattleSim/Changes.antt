-- ===== src/BattleSim/Changes.antt =====
-- game/BattleSim.cc: the ids that `step` returns are those of the players whose place or hit points
-- changed.
use my_game_server.Base.{
  ℕ, ◌-◌, ◌==◌, if◌then◌else◌, Bool, true, false, List, [], ◌∷◌, Option, none, some, ◌≡◌, ◌⊎◌, inl,
  inr, refl, ◌∙◌, arith, Option-cases,
}
use my_game_server.Base.Map.{Map, lookup, has, keys, lookup-insert}
use my_game_server.Base.IdSet.{mem}
use my_game_server.BattleSim.Defs.{Floats, Player, Projectile, Sim, attack_cd}
use my_game_server.BattleSim.Move.{note_changed, move_player, move_all, cool_down}
use my_game_server.BattleSim.Attack.{attack_all, shoots}
use my_game_server.BattleSim.Flight.{
  Segment, Flying, hits, closest, find_hit, path_of, advance_found, advance_one, advance_all, land,
  hurt, fly_on, drop_projectile,
}
use my_game_server.BattleSim.{shooting, flying, step}

mem-note_changed :
    (k id : ℕ) (xs : List ℕ) → mem k (note_changed id xs) ≡ (if id == k then true else mem k xs)
unfolding mem note_changed
mem-note_changed k id [] = refl
mem-note_changed k id (x ∷ xs) = ground (arith, mem-note_changed k id xs)

module _ (fl : Floats) where
  open fl use {Float, infinity}

  -- What a client is told of a player: who, where, and with how many hit points.
  abbrev pub place : Option (Player fl) → Option (ℕ × Float × Float × ℕ)
  place none = none
  place (some p) = some (p.id, p.x, p.y, p.hp)

  abbrev pub id_of : Option (Player fl) → Option ℕ
  id_of none = none
  id_of (some p) = some p.id

  -- From `m` to `m'` the player with the key `k` keeps its id, and the ids `c'` grew out of `c` by at
  -- least those that changed, and by keys of the map only.
  pub record Reports (k : ℕ) (m : Map (Player fl)) (c : List ℕ) (m' : Map (Player fl)) (c' : List ℕ)
      : Type 0 where
    pub same_id : id_of (lookup k m') ≡ id_of (lookup k m)
    pub grew : mem k c' ≡ false → mem k c ≡ false
    pub told : mem k c' ≡ false → place (lookup k m') ≡ place (lookup k m)
    pub known : id_of (lookup k m) ≡ none → mem k c ≡ false → mem k c' ≡ false

  Reports-refl : (k : ℕ) (m : Map (Player fl)) (c : List ℕ) → Reports k m c m c
  Reports-refl k m c = record { same_id = refl; grew = λ h. h; told = λ h. refl; known = λ n h. h }

  Reports-trans :
      {k : ℕ} {m n o : Map (Player fl)} {c d e : List ℕ}
      → Reports k m c n d
      → Reports k n d o e
      → Reports k m c o e
  Reports-trans r t = record {
    same_id = t.same_id ∙ r.same_id;
    grew = λ h. r.grew (t.grew h);
    told = λ h. t.told h ∙ r.told (t.grew h);
    known = λ u h. t.known (r.same_id ∙ u) (r.known u h);
  }

  abbrev Moved : Player fl → Player fl × Bool → Type 0
  Moved p (q, moved) = (q.id ≡ p.id) × (q.hp ≡ p.hp) × (moved ≡ false → (q.x ≡ p.x) × (q.y ≡ p.y))

  move_player-Moved : (dt : Float) (p : Player fl) → Moved p (move_player fl dt p)
  unfolding move_player
  move_player-Moved dt p = ground arith

  Reports-cons :
      (k id : ℕ) (p : Player fl) (m : Map (Player fl)) (c : List ℕ)
      → (r : Player fl × Bool) → Moved p r
      → (m' : Map (Player fl)) (c' : List ℕ)
      → Reports k m (if r.1 then note_changed id c else c) m' c'
      → Reports k ((id, p) ∷ m) c ((id, r.0) ∷ m') c'
  unfolding lookup
  Reports-cons k id p m c (q, false) (i, h, xy) m' c' t =
      let (x, y) = xy refl in
      record {
        same_id = ground (arith, t.same_id);
        grew = t.grew;
        told = λ u. ground (arith, t.told u);
        known = λ n u. ground (arith, t.known, t.grew);
      }
  Reports-cons k id p m c (q, true) (i, h, xy) m' c' t = record {
    same_id = ground (arith, t.same_id);
    grew = λ u. ground (arith, t.grew u, mem-note_changed k id c);
    told = λ u. ground (arith, t.told u, t.grew u, mem-note_changed k id c);
    known = λ n u. ground (arith, t.known, mem-note_changed k id c);
  }

  move_all-Reports :
      (dt : Float) (k : ℕ) (m : Map (Player fl)) (c : List ℕ)
      → Reports k m c (move_all fl dt m c).0 (move_all fl dt m c).1
  unfolding move_all
  move_all-Reports dt k [] c = Reports-refl k [] c
  move_all-Reports dt k ((id, p) ∷ m) c =
      Reports-cons k id p m c (move_player fl dt p) (move_player-Moved dt p) _ _
        (move_all-Reports dt k m _)

  -- Neither ids nor places change.
  abbrev SamePlaces : ℕ → Map (Player fl) → Map (Player fl) → Type 0
  SamePlaces k m m' =
      (id_of (lookup k m') ≡ id_of (lookup k m)) × (place (lookup k m') ≡ place (lookup k m))

  Reports-same :
      (k : ℕ) (m m' : Map (Player fl)) (c : List ℕ) → SamePlaces k m m' → Reports k m c m' c
  Reports-same k m m' c (i, e) = record {
    same_id = i;
    grew = λ h. h;
    told = λ h. e;
    known = λ n h. h;
  }

  cool_down-SamePlaces : (k ms : ℕ) (m : Map (Player fl)) → SamePlaces k m (cool_down fl ms m)
  unfolding lookup cool_down
  cool_down-SamePlaces k ms [] = (refl, refl)
  cool_down-SamePlaces k ms ((id, p) ∷ m) = ground (arith, cool_down-SamePlaces k ms m)

  SamePlaces-fires :
      (fires : Bool) (k id : ℕ) (p : Player fl) (m m' : Map (Player fl))
      → SamePlaces k m m'
      → SamePlaces k
          ((id, p) ∷ m)
          ((id, (if fires then record p { cd_ms = attack_cd } else p)) ∷ m')
  unfolding lookup
  SamePlaces-fires true k id p m m' h = ground arith
  SamePlaces-fires false k id p m m' h = ground arith

  attack_all-SamePlaces :
      (k : ℕ) (all m : Map (Player fl)) (b : Map (Projectile fl)) (next : ℕ)
      → SamePlaces k m (attack_all fl all m b next).players
  unfolding lookup attack_all
  attack_all-SamePlaces k all [] b next = (refl, refl)
  attack_all-SamePlaces k all ((id, p) ∷ m) b next =
      SamePlaces-fires (shoots fl p) k id p m _ (attack_all-SamePlaces k all m _ _)

  shooting-Reports :
      (k ms : ℕ) (s : Sim fl)
      → Reports k s.players []
          (shooting fl ms s).players
          (move_all fl (fl.div (fl.of_int ms) (fl.of_int 1000)) s.players []).1
  unfolding shooting
  shooting-Reports k ms s = Reports-trans (move_all-Reports _ k s.players []) (
      Reports-trans (Reports-same k _ _ _ (cool_down-SamePlaces k ms _))
        (Reports-same k _ _ _ (attack_all-SamePlaces k _ _ s.projectiles s.next_projectile_id)))

  find_hit-has :
      (s : Segment fl) (owner : ℕ) (m : Map (Player fl)) (hit : Option ℕ) (hit_t : Float) (t : ℕ)
      → find_hit fl s owner m hit hit_t ≡ some t
      → (hit ≡ some t) ⊎ (has t m ≡ true)
  unfolding find_hit has lookup
  find_hit-has s owner [] hit hit_t t e = inl e
  find_hit-has s owner ((id, p) ∷ m) hit hit_t t e = ground (
    arith,
    find_hit-has s owner m (if hits fl s owner id p hit_t then some id else hit)
        (if hits fl s owner id p hit_t then closest fl s p else hit_t) t e,
  )

  hurt-Reports :
      (k t : ℕ) (m : Map (Player fl)) (c : List ℕ)
      → has t m ≡ true
      → Reports k m c (hurt fl t (lookup t m) m) (note_changed t c)
  unfolding has
  hurt-Reports k t m c h = elim (Option-cases (lookup t m)) [
    | inl e ↦ absurd (ground (arith, e))
    | inr (p, e) ↦ rw e (record {
      same_id = ground (arith, lookup-insert t k (record p { hp = p.hp - 25 }) m, e);
      grew = λ u. ground (arith, mem-note_changed k t c);
      told = λ u.
          ground (arith, mem-note_changed k t c, lookup-insert t k (record p { hp = p.hp - 25 }) m);
      known = λ n u. ground (arith, mem-note_changed k t c, e);
    })
  ]

  fly_on-Reports :
      (dt : Float) (k id : ℕ) (b : Projectile fl) (f : Flying fl)
      → let g = fly_on fl dt id b f in Reports k f.players f.changed g.players g.changed
  fly_on-Reports dt k id b f = by_spent _ _
    where
      by_spent :
          (over : Bool) (g : Flying fl)
          → let h = if over then drop_projectile fl id g else g in
            Reports k g.players g.changed h.players h.changed
      by_spent true g = Reports-refl k _ _
      by_spent false g = Reports-refl k _ _

  advance_one-Reports :
      (dt : Float) (k id : ℕ) (f : Flying fl)
      → let g = advance_one fl dt id f in Reports k f.players f.changed g.players g.changed
  unfolding advance_one
  advance_one-Reports dt k id f = by_projectile (lookup id f.projectiles)
    where
      by_hit :
          (b : Projectile fl) (o : Option ℕ)
          → ((t : ℕ) → o ≡ some t → has t f.players ≡ true)
          → let g = land fl dt id b o f in Reports k f.players f.changed g.players g.changed
      by_hit b none h = fly_on-Reports dt k id b f
      by_hit b (some t) h = hurt-Reports k t f.players f.changed (h t refl)

      present :
          (b : Projectile fl) (t : ℕ)
          → find_hit fl (path_of fl dt b) b.owner_id f.players none infinity ≡ some t
          → has t f.players ≡ true
      present b t e = elim (find_hit-has (path_of fl dt b) b.owner_id f.players none infinity t e) [
        | inl u ↦ absurd (cc)
        | inr h ↦ h
      ]

      by_projectile :
          (o : Option (Projectile fl))
          → let g = advance_found fl dt id o f in Reports k f.players f.changed g.players g.changed
      by_projectile none = Reports-refl k f.players f.changed
      by_projectile (some b) = by_hit b _ (present b)

  advance_all-Reports :
      (dt : Float) (k : ℕ) (ids : List ℕ) (f : Flying fl)
      → let g = advance_all fl dt ids f in Reports k f.players f.changed g.players g.changed
  unfolding advance_all
  advance_all-Reports dt k [] f = Reports-refl k f.players f.changed
  advance_all-Reports dt k (id ∷ ids) f =
      Reports-trans (advance_one-Reports dt k id f)
        (advance_all-Reports dt k ids (advance_one fl dt id f))

  pub step-Reports :
      (k ms : ℕ) (s : Sim fl)
      → let (s', changed) = step fl ms s in Reports k s.players [] s'.players changed
  unfolding step flying
  step-Reports k ms s =
      Reports-trans (shooting-Reports k ms s) (advance_all-Reports _ k (keys s.projectiles) _)
