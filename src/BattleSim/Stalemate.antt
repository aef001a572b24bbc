-- ===== src/BattleSim/Stalemate.antt =====
-- game/BattleSim.cc: what happens when nobody is left alive. `winnerOrZero` then names no winner, and
-- `Room::onTick` ends a battle only for a winner.
use my_game_server.Base.{
  ℕ, if◌then◌else◌, false, List, [], ◌∷◌, Option, none, some, ◌≡◌, refl, sym, ap, subst, ◌∙◌, arith,
  All, inl, inr, Option-cases,
}
use my_game_server.Base.Map.{Map, lookup, keys}
use my_game_server.BattleSim.Defs.{Floats, Input, Player, Projectile, Sim, is_alive}
use my_game_server.BattleSim.Flight.{
  Segment, Flying, hits, find_hit, path_of, advance_found, advance_one, advance_all, land, fly_on,
}
use my_game_server.BattleSim.{flying, step, count_alive, winner_or_zero, apply_input, store_input}
use my_game_server.BattleSim.Health.{health, health-shooting, health-insert_same}

-- What a room does to its simulation while a battle runs.
pub data SimOp (fl : Floats) : Type 0 where
  steps : ℕ → SimOp fl
  inputs : ℕ → Input fl → SimOp fl

module _ (fl : Floats) where
  open fl use {Float, infinity}

  unfoldable pub do_op : SimOp fl → Sim fl → Sim fl
  do_op (steps ms) s = (step fl ms s).0
  do_op (inputs id i) s = apply_input fl id i s

  unfoldable pub do_ops : List (SimOp fl) → Sim fl → Sim fl
  do_ops [] s = s
  do_ops (o ∷ os) s = do_ops os (do_op o s)

  -- Nobody has hit points left.
  abbrev pub AllDead : List (ℕ × ℕ) → Type 0
  AllDead = All (λ e. e.1 ≡ 0)

  dead_missed :
      (s : Segment fl) (owner id : ℕ) (p : Player fl) (t : Float)
      → p.hp ≡ 0
      → hits fl s owner id p t ≡ false
  unfolding hits
  dead_missed s owner id p t d = ground arith

  no_hit :
      (s : Segment fl) (owner : ℕ) (m : Map (Player fl)) (hit : Option ℕ) (t : Float)
      → AllDead (health fl m)
      → find_hit fl s owner m hit t ≡ hit
  unfolding find_hit health
  no_hit s owner [] hit t d = refl
  no_hit s owner ((id, p) ∷ m) hit t d =
      no_hit s owner m _ _ d.1
      ∙ ap (λ c. if c then some id else hit) (dead_missed s owner id p t d.0)

  count-none :
      (m : Map (Player fl)) (n last : ℕ)
      → AllDead (health fl m)
      → count_alive fl m n last ≡ (n, last)
  unfolding count_alive health
  count-none [] n last d = refl
  count-none ((id, p) ∷ m) n last d =
      let dead : is_alive fl p ≡ false = ground (arith, d.0) in rw dead (count-none m n last d.1)

  players-fly_on :
      (dt : Float) (id : ℕ) (b : Projectile fl) (f : Flying fl)
      → (fly_on fl dt id b f).players ≡ f.players
  players-fly_on dt id b f = ground arith

  still-advance_one :
      (dt : Float) (id : ℕ) (f : Flying fl)
      → AllDead (health fl f.players)
      → (advance_one fl dt id f).players ≡ f.players
  unfolding advance_one
  still-advance_one dt id f d = elim (Option-cases (lookup id f.projectiles)) [
    | inl e ↦ rw (e, advance_found)
    | inr (b, e) ↦
        rw (e, advance_found, no_hit (path_of fl dt b) b.owner_id f.players none infinity d, land)
          (players-fly_on dt id b f)
  ]

  still-advance_all :
      (dt : Float) (ids : List ℕ) (f : Flying fl)
      → AllDead (health fl f.players)
      → (advance_all fl dt ids f).players ≡ f.players
  unfolding advance_all
  still-advance_all dt [] f d = refl
  still-advance_all dt (id ∷ ids) f d =
      let e = still-advance_one dt id f d in
      still-advance_all dt ids (advance_one fl dt id f)
        (subst (λ m. AllDead (health fl m)) (sym e) d)
      ∙ e

  pub health-step :
      (ms : ℕ) (s : Sim fl)
      → AllDead (health fl s.players)
      → health fl (step fl ms s).0.players ≡ health fl s.players
  unfolding step flying
  health-step ms s d =
      let e = health-shooting fl ms s in
      ap (health fl) (still-advance_all _ (keys s.projectiles) _ (subst AllDead (sym e) d)) ∙ e

  pub health-apply_input :
      (id : ℕ) (i : Input fl) (s : Sim fl)
      → health fl (apply_input fl id i s).players ≡ health fl s.players
  unfolding apply_input
  health-apply_input id i s = elim (Option-cases (lookup id s.players)) [
    | inl e ↦ rw (e, store_input)
    | inr (p, e) ↦ rw (e, store_input) (health-insert_same fl id _ p s.players e refl)
  ]

  health-do_op :
      (o : SimOp fl) (s : Sim fl)
      → AllDead (health fl s.players)
      → health fl (do_op o s).players ≡ health fl s.players
  unfolding do_op
  health-do_op (steps ms) s d = health-step ms s d
  health-do_op (inputs id i) s d = health-apply_input id i s

  -- Once the last players have died in the same step, nothing that a room does to its simulation ends
  -- the battle: after any inputs and steps the hit points are what they were, and no winner is named.
  pub stalemate :
      (os : List (SimOp fl)) (s : Sim fl)
      → AllDead (health fl s.players)
      → (health fl (do_ops os s).players ≡ health fl s.players)
        × (winner_or_zero fl (do_ops os s) ≡ 0)
  unfolding do_ops winner_or_zero
  stalemate [] s d = (refl, rw (count-none s.players 0 0 d))
  stalemate (o ∷ os) s d =
      let e = health-do_op o s d in
      let (h, w) = stalemate os (do_op o s) (subst AllDead (sym e) d) in (h ∙ e, w)
