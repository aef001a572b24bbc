-- ===== src/BattleSim/Shots.antt =====
-- game/BattleSim.cc: the players and the projectiles of a step after the moves and the shots.
use my_game_server.Base.{
  ℕ, ◌+◌, ◌==◌, true, List, [], ◌∷◌, none, some, ◌≡◌, refl, sym, ap, ◌∙◌, arith, All, Bool-cases,
  inl, inr, if_true, if_false, map,
}
use my_game_server.Base.Map.{Map, lookup, insert, keys, lookup-insert}
use my_game_server.Base.IdSet.{mem}
use my_game_server.BattleSim.Defs.{Floats, Player, Projectile, Sim}
use my_game_server.BattleSim.Attack.{attack_all, shoots, shot, aim, nearest}
use my_game_server.BattleSim.Health.{health, health-shooting}
use my_game_server.BattleSim.{shooting}

module _ (fl : Floats) where
  open fl use {Float, infinity}

  -- Each of them is there.
  abbrev pub Present : Map (Projectile fl) → List ℕ → Type 0
  Present bullets ids = All (λ b. (q : Projectile fl) × (lookup b bullets ≡ some q)) ids

  keys-health : (m : Map (Player fl)) → keys m ≡ map (λ e. e.0) (health fl m)
  unfolding keys health
  keys-health [] = refl
  keys-health ((i, p) ∷ m) = ap (◌∷◌ i) (keys-health m)

  pub keys-shooting : (ms : ℕ) (s : Sim fl) → keys (shooting fl ms s).players ≡ keys s.players
  keys-shooting ms s =
      keys-health (shooting fl ms s).players
      ∙ (ap (map (λ e. e.0)) (health-shooting fl ms s) ∙ sym (keys-health s.players))

  lookup_known :
      (k : ℕ) (m : Map (Projectile fl))
      → mem k (keys m) ≡ true
      → (q : Projectile fl) × (lookup k m ≡ some q)
  unfolding lookup keys mem
  lookup_known k [] e = absurd (cc)
  lookup_known k ((j, v) ∷ m) e = elim (Bool-cases (j == k)) [
    | inl here ↦ (v, rw here refl)
    | inr other ↦ let (q, f) = lookup_known k m (rw other at e) in (q, rw other f)
  ]

  -- The shots only add projectiles.
  attack_all-keeps :
      (j : ℕ) (all m : Map (Player fl)) (bs : Map (Projectile fl)) (n : ℕ) (q : Projectile fl)
      → lookup j bs ≡ some q
      → (w : Projectile fl) × (lookup j (attack_all fl all m bs n).projectiles ≡ some w)
  unfolding attack_all
  attack_all-keeps j all [] bs n q e = (q, e)
  attack_all-keeps j all ((i, p) ∷ m) bs n q e = elim (Bool-cases (shoots fl p)) [
    | inl fires ↦
        let b = shot fl n i p (aim fl p (nearest fl i p all infinity none)) in
        let (w, f) = stored b in rw fires (attack_all-keeps j all m (insert n b bs) (n + 1) w f)
    | inr holds ↦ rw holds (attack_all-keeps j all m bs n q e)
  ]
    where
      stored : (b : Projectile fl) → (w : Projectile fl) × (lookup j (insert n b bs) ≡ some w)
      stored b = elim (Bool-cases (n == j)) [
        | inl same ↦ (b, lookup-insert n j b bs ∙ if_true _ _ same)
        | inr other ↦ (q, lookup-insert n j b bs ∙ (if_false _ _ other ∙ e))
      ]

  all-Present :
      (bullets : Map (Projectile fl)) (ids : List ℕ)
      → ((b : ℕ) → mem b ids ≡ true → (q : Projectile fl) × (lookup b bullets ≡ some q))
      → Present bullets ids
  unfolding mem
  all-Present bullets [] h = tt
  all-Present bullets (b ∷ ids) h =
      (h b (ground arith), all-Present bullets ids (λ j e. h j (ground (arith, e))))

  pub shooting-Present :
      (ms : ℕ) (s : Sim fl) → Present (shooting fl ms s).projectiles (keys s.projectiles)
  unfolding shooting
  shooting-Present ms s = all-Present _ (keys s.projectiles) (λ b e.
      let (q, f) = lookup_known b s.projectiles e in attack_all-keeps b _ _ s.projectiles _ q f)
