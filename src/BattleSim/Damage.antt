-- ===== src/BattleSim/Damage.antt =====
-- game/BattleSim.cc: what the projectiles of a step do to the players.
use my_game_server.Base.{
  ℕ, ◌-◌, ◌==◌, if◌then◌else◌, Bool, true, false, List, [], ◌∷◌, Option, none, some, ◌≡◌, refl, sym,
  ap, subst, ◌∙◌, arith, All, Bool-cases, inl, inr, Option-cases, ==→eq, if_false,
}
use my_game_server.Base.Map.{Map, lookup, insert, keys, lookup-insert, lookup-erase}
use my_game_server.Base.IdSet.{mem, IsDistinct}
use my_game_server.BattleSim.Defs.{Floats, Player, Projectile, Sim, damage}
use my_game_server.BattleSim.Flight.{
  Flying, closest, find_hit, path_of, advance_found, advance_one, advance_all, land, hurt,
  drop_projectile,
}
use my_game_server.BattleSim.Health.{health, health-shooting}
use my_game_server.BattleSim.{shooting, flying, step}
use my_game_server.BattleSim.Collision.{Orders, earlier, Found, find_hit-Found}
use my_game_server.BattleSim.Shots.{Present, keys-shooting, shooting-Present}

module _ (fl : Floats) where
  open fl use {Float, infinity}

  -- The projectiles of a list, in order, each of which hits the first player on its path and takes 25 hit
  -- points, or hits nobody.
  pub data Volley (dt : Float) (bullets : Map (Projectile fl))
      : List ℕ → Map (Player fl) → Map (Player fl) → Type 0 where
    done : {m : Map (Player fl)} → Volley dt bullets [] m m
    misses :
        {b : ℕ} {bs : List ℕ} {m m' : Map (Player fl)} (q : Projectile fl)
        → lookup b bullets ≡ some q
        → All (λ e. earlier fl q (path_of fl dt q) infinity e ≡ false) m
        → Volley dt bullets bs m m'
        → Volley dt bullets (b ∷ bs) m m'
    strikes :
        {b : ℕ} {bs : List ℕ} {m m' : Map (Player fl)} (q : Projectile fl) (t : ℕ) (p : Player fl)
        → lookup b bullets ≡ some q
        → lookup t m ≡ some p
        → earlier fl q (path_of fl dt q) infinity (t, p) ≡ true
        → All (λ e. earlier fl q (path_of fl dt q) (closest fl (path_of fl dt q) p) e ≡ false) m
        → Volley dt bullets bs (insert t (record p { hp = p.hp - damage }) m) m'
        → Volley dt bullets (b ∷ bs) m m'

  module _ (laws : Orders fl) where
    players-land-none :
        (dt : Float) (b : ℕ) (q : Projectile fl) (f : Flying fl)
        → (land fl dt b q none f).players ≡ f.players
    players-land-none dt b q f = ground arith

    players-land-some :
        (dt : Float) (b t : ℕ) (q : Projectile fl) (p : Player fl) (f : Flying fl)
        → lookup t f.players ≡ some p
        → (land fl dt b q (some t) f).players ≡ insert t (record p { hp = p.hp - damage }) f.players
    players-land-some dt b t q p f e = ap (λ o. hurt fl t o f.players) e

    -- A projectile that has flown on is stored, and dropped if it is spent.
    others-fly_on :
        (over : Bool) (b j : ℕ) (q : Projectile fl) (f : Flying fl)
        → (b == j) ≡ false
        → let g : Flying fl = record f { projectiles = insert b q f.projectiles } in
          lookup j (if over then drop_projectile fl b g else g).projectiles ≡ lookup j f.projectiles
    others-fly_on true b j q f e =
        lookup-erase b j (insert b q f.projectiles)
        ∙ (if_false _ _ e ∙ (lookup-insert b j q f.projectiles ∙ if_false _ _ e))
    others-fly_on false b j q f e = lookup-insert b j q f.projectiles ∙ if_false _ _ e

    others-land :
        (dt : Float) (b j : ℕ) (q : Projectile fl) (o : Option ℕ) (f : Flying fl)
        → (b == j) ≡ false
        → lookup j (land fl dt b q o f).projectiles ≡ lookup j f.projectiles
    others-land dt b j q none f e = others-fly_on _ b j _ f e
    others-land dt b j q (some t) f e = ground (arith, e, lookup-erase b j f.projectiles)

    keys-insert :
        (t : ℕ) (p w : Player fl) (m : Map (Player fl))
        → lookup t m ≡ some w
        → keys (insert t p m) ≡ keys m
    unfolding lookup insert keys
    keys-insert t p w [] e = ground (arith, e)
    keys-insert t p w ((i, v) ∷ m) e = elim (Bool-cases (i == t)) [
      | inl here ↦ rw here (ap (λ j. j ∷ keys m) (sym (==→eq i t here)))
      | inr other ↦ rw other (ap (◌∷◌ i) (keys-insert t p w m (rw other at e)))
    ]

    keys-land :
        (dt : Float) (b : ℕ) (q : Projectile fl) (o : Option ℕ) (f : Flying fl)
        → keys (land fl dt b q o f).players ≡ keys f.players
    keys-land dt b q none f = ap keys (players-land-none dt b q f)
    keys-land dt b q (some t) f = elim (Option-cases (lookup t f.players)) [
      | inl e ↦ ap (λ o. keys (hurt fl t o f.players)) e
      | inr (p, e) ↦
          ap keys (players-land-some dt b t q p f e)
          ∙ keys-insert t (record p { hp = p.hp - damage }) p f.players e
    ]

    -- The projectiles that are left to fly are those of the start.
    abbrev Unflown : Map (Projectile fl) → List ℕ → Map (Projectile fl) → Type 0
    Unflown bullets ids now = All (λ b. lookup b now ≡ lookup b bullets) ids

    land-Unflown :
        (dt : Float) (bullets : Map (Projectile fl)) (b : ℕ) (q : Projectile fl) (o : Option ℕ)
        (f : Flying fl) (ids : List ℕ)
        → mem b ids ≡ false
        → Unflown bullets ids f.projectiles
        → Unflown bullets ids (land fl dt b q o f).projectiles
    unfolding mem
    land-Unflown dt bullets b q o f [] d u = tt
    land-Unflown dt bullets b q o f (j ∷ ids) d (e, u) = (
      others-land dt b j q o f (ground (arith, d)) ∙ e,
      land-Unflown dt bullets b q o f ids (ground (arith, d)) u,
    )

    flown_lem :
        (dt : Float) (b : ℕ) (q : Projectile fl) (f : Flying fl)
        → lookup b f.projectiles ≡ some q
        → advance_one fl dt b f
          ≡ land fl dt b q (find_hit fl (path_of fl dt q) q.owner_id f.players none infinity) f
    unfolding advance_one
    flown_lem dt b q f e = ap (λ o. advance_found fl dt b o f) e

    same-Unflown : (ids : List ℕ) (bullets : Map (Projectile fl)) → Unflown bullets ids bullets
    same-Unflown [] bullets = tt
    same-Unflown (b ∷ ids) bullets = (refl, same-Unflown ids bullets)

    land-Volley :
        (dt : Float) (bullets : Map (Projectile fl)) (b : ℕ) (ids : List ℕ) (q : Projectile fl)
        (f : Flying fl) (m' : Map (Player fl)) (r : Option ℕ)
        → lookup b bullets ≡ some q
        → Found fl q (path_of fl dt q) none infinity f.players r
        → Volley dt bullets ids (land fl dt b q r f).players m'
        → Volley dt bullets (b ∷ ids) f.players m'
    land-Volley dt bullets b ids q f m' r k (inl (e, none_met)) v = misses q k none_met (
        subst (λ m. Volley dt bullets ids m m') (players-land-none dt b q f)
          (subst (λ o. Volley dt bullets ids (land fl dt b q o f).players m') e v))
    land-Volley dt bullets b ids q f m' r k (inr (t, p, e, there, met, first)) v =
        strikes q t p k there met first (
          subst (λ m. Volley dt bullets ids m m') (players-land-some dt b t q p f there)
            (subst (λ o. Volley dt bullets ids (land fl dt b q o f).players m') e v))

    advance_all-Volley :
        (dt : Float) (bullets : Map (Projectile fl)) (ids : List ℕ) (f : Flying fl)
        → IsDistinct ids
        → IsDistinct (keys f.players)
        → Present fl bullets ids
        → Unflown bullets ids f.projectiles
        → Volley dt bullets ids f.players (advance_all fl dt ids f).players
    unfolding advance_all
    advance_all-Volley dt bullets [] f d e g u = done
    advance_all-Volley dt bullets (b ∷ ids) f (d, ds) e ((q, k), gs) (u, us) =
        let r = find_hit fl (path_of fl dt q) q.owner_id f.players none infinity in
        let flown : advance_one fl dt b f ≡ land fl dt b q r f = flown_lem dt b q f (u ∙ k) in
        subst (λ h. Volley dt bullets (b ∷ ids) f.players (advance_all fl dt ids h).players)
          (sym flown)
          (land-Volley dt bullets b ids q f _ r k
            (find_hit-Found fl laws q (path_of fl dt q) f.players none infinity e)
            (advance_all-Volley dt bullets ids (land fl dt b q r f) ds
              (subst IsDistinct (sym (keys-land dt b q r f)) e) gs
              (land-Unflown dt bullets b q r f ids d us)))

    -- If the maps hold each key once, as maps do, and the order of floats is irreflexive and transitive: the
    -- moves and the shots of a step leave hit points alone, and then the projectiles that were there before
    -- fly in turn. Each either meets no player who is alive other than its owner, and changes nothing, or hits
    -- one whom its path meets, with none met before on it: that player loses 25 hit points, down to 0.
    -- Nothing else happens to the players. Where a player is met must compare as less than infinity.
    pub step-Volley :
        (ms : ℕ) (s : Sim fl)
        → IsDistinct (keys s.projectiles)
        → IsDistinct (keys s.players)
        → let shots = shooting fl ms s in
          (health fl shots.players ≡ health fl s.players)
          × Volley
              (fl.div (fl.of_int ms) (fl.of_int 1000))
              shots.projectiles
              (keys s.projectiles)
              shots.players
              (step fl ms s).0.players
    unfolding step flying
    step-Volley ms s d e = (
      health-shooting fl ms s,
      advance_all-Volley _ (shooting fl ms s).projectiles (keys s.projectiles) _ d
          (subst IsDistinct (sym (keys-shooting fl ms s)) e) (shooting-Present fl ms s)
          (same-Unflown (keys s.projectiles) (shooting fl ms s).projectiles),
    )
