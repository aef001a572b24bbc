-- ===== src/BattleSim/Health.antt =====
-- game/BattleSim.cc: hit points through the loops of `step`. Moving, cooling down and shooting leave
-- them alone.
use my_game_server.Base.{
  ℕ, ◌==◌, if◌then◌else◌, Bool, true, false, List, [], ◌∷◌, Option, none, some, ◌≡◌, refl, sym, ap,
  ◌∙◌, arith, Bool-cases, inl, inr, ==→eq,
}
use my_game_server.Base.Map.{Map, lookup, insert}
use my_game_server.BattleSim.Defs.{Floats, Player, Projectile, Sim, attack_cd}
use my_game_server.BattleSim.Move.{move_player, move_all, cool_down}
use my_game_server.BattleSim.Attack.{attack_all, shoots}
use my_game_server.BattleSim.{shooting}

-- What a health list says of one player: the first entry.
abbrev pub hp_at : ℕ → List (ℕ × ℕ) → Option ℕ
hp_at k [] = none
hp_at k ((id, hp) ∷ hs) = if id == k then some hp else hp_at k hs

abbrev pub lower : ℕ → ℕ → List (ℕ × ℕ) → List (ℕ × ℕ)
lower k hp [] = []
lower k hp ((id, h) ∷ hs) = if id == k then (id, hp) ∷ hs else (id, h) ∷ lower k hp hs

lower_same : (k h : ℕ) (hs : List (ℕ × ℕ)) → hp_at k hs ≡ some h → lower k h hs ≡ hs
lower_same k h [] e = refl
lower_same k h ((id, g) ∷ hs) e = ground (arith, lower_same k h hs)

module _ (fl : Floats) where
  open fl use {Float, infinity}

  -- Who has how many hit points, in iteration order.
  unfoldable pub health : Map (Player fl) → List (ℕ × ℕ)
  health [] = []
  health ((id, p) ∷ m) = (id, p.hp) ∷ health m

  hp-move_player : (dt : Float) (p : Player fl) → (move_player fl dt p).0.hp ≡ p.hp
  unfolding move_player
  hp-move_player dt p = ground arith

  health-move_all :
      (dt : Float) (m : Map (Player fl)) (changed : List ℕ)
      → health (move_all fl dt m changed).0 ≡ health m
  unfolding health move_all
  health-move_all dt [] changed = refl
  health-move_all dt ((id, p) ∷ m) changed = rw (hp-move_player dt p, health-move_all dt m _)

  health-cool_down : (ms : ℕ) (m : Map (Player fl)) → health (cool_down fl ms m) ≡ health m
  unfolding health cool_down
  health-cool_down ms [] = refl
  health-cool_down ms ((id, p) ∷ m) = ap (◌∷◌ (id, p.hp)) (health-cool_down ms m)

  hp-fires :
      (c : Bool) (p : Player fl) → (if c then record p { cd_ms = attack_cd } else p).hp ≡ p.hp
  hp-fires true p = refl
  hp-fires false p = refl

  health-attack_all :
      (all m : Map (Player fl)) (b : Map (Projectile fl)) (next : ℕ)
      → health (attack_all fl all m b next).players ≡ health m
  unfolding health attack_all
  health-attack_all all [] b next = refl
  health-attack_all all ((id, p) ∷ m) b next =
      let rest = health-attack_all all m _ _ in λ i. (id, hp-fires (shoots fl p) p i) ∷ rest i

  pub health-shooting : (ms : ℕ) (s : Sim fl) → health (shooting fl ms s).players ≡ health s.players
  unfolding shooting
  health-shooting ms s =
      health-attack_all _ _ s.projectiles s.next_projectile_id
      ∙ health-cool_down ms _
      ∙ health-move_all _ s.players []

  pub health-insert :
      (k : ℕ) (p q : Player fl) (m : Map (Player fl))
      → lookup k m ≡ some q
      → health (insert k p m) ≡ lower k p.hp (health m)
  unfolding health insert lookup
  health-insert k p q [] e = ground arith
  health-insert k p q ((id, r) ∷ m) e = elim (Bool-cases (id == k)) [
    | inl here ↦ rw here (ap (λ j. (j, p.hp) ∷ health m) (sym (==→eq id k here)))
    | inr other ↦ rw other (ap (◌∷◌ (id, r.hp)) (health-insert k p q m (rw other at e)))
  ]

  pub hp_at-health :
      (k : ℕ) (q : Player fl) (m : Map (Player fl))
      → lookup k m ≡ some q
      → hp_at k (health m) ≡ some q.hp
  unfolding health lookup
  hp_at-health k q [] e = ground arith
  hp_at-health k q ((id, r) ∷ m) e = ground (arith, hp_at-health k q m)

  -- Storing a player with the hit points that it has changes nobody's.
  pub health-insert_same :
      (k : ℕ) (p q : Player fl) (m : Map (Player fl))
      → lookup k m ≡ some q
      → p.hp ≡ q.hp
      → health (insert k p m) ≡ health m
  health-insert_same k p q m e same =
      health-insert k p q m e
      ∙ lower_same k p.hp (health m) (hp_at-health k q m e ∙ ap some (sym same))
