-- ===== src/BattleSim/Collision.antt =====
-- game/BattleSim.cc: the search of `step` for the player whom a projectile's path meets first.
use my_game_server.Base.{
  ℕ, ◌==◌, Bool, true, false, not, ◌&&◌, ◌||◌, [], ◌∷◌, Option, none, some, ◌≡◌, ◌⊎◌, refl, sym,
  subst, ◌∙◌, arith, All, Bool-cases, inl, inr, ==→eq,
}
use my_game_server.Base.Map.{Map, lookup, keys}
use my_game_server.Base.IdSet.{mem, IsDistinct}
use my_game_server.BattleSim.Defs.{Floats, Player, Projectile, is_alive}
use my_game_server.BattleSim.Flight.{Segment, closest, within_radius, hits, find_hit}

-- What is relied on of the order of `float`; it holds of numbers and of what is no number.
pub record Orders (fl : Floats) : Type 0 where
  pub irrefl : (a : fl.Float) → fl.lt a a ≡ false
  pub trans : (a b c : fl.Float) → fl.lt a b ≡ true → fl.lt b c ≡ true → fl.lt a c ≡ true

module _ (fl : Floats) where
  open fl use {Float, infinity, lt}

  -- Another player who is alive, and whom the path of the projectile meets.
  unfoldable pub meets : Projectile fl → Segment fl → ℕ × Player fl → Bool
  meets q s (t, p) =
      not (t == q.owner_id || not (is_alive fl p)) && within_radius fl s p (closest fl s p)

  -- Met earlier on the path than at `at`.
  abbrev pub earlier : Projectile fl → Segment fl → Float → ℕ × Player fl → Bool
  earlier q s at e = meets q s e && lt (closest fl s e.1) at

  lookup_unknown : {V : Type 0} (k : ℕ) (m : Map V) → mem k (keys m) ≡ false → lookup k m ≡ none
  unfolding lookup keys mem
  lookup_unknown k [] e = refl
  lookup_unknown k ((j, v) ∷ m) e = ground (arith, e, lookup_unknown k m)

  lookup-later :
      {V : Type 0} (i t : ℕ) (v w : V) (m : Map V)
      → mem i (keys m) ≡ false
      → lookup t m ≡ some w
      → lookup t ((i, v) ∷ m) ≡ some w
  unfolding lookup
  lookup-later i t v w m e f = elim (Bool-cases (i == t)) [
    | inl same ↦
        let g : none ≡ some w =
          sym (subst (λ j. lookup j m ≡ none) (==→eq i t same) (lookup_unknown i m e)) ∙ f in
        absurd (cc)
    | inr other ↦ rw other f
  ]

  lookup-head : {V : Type 0} (i : ℕ) (v : V) (m : Map V) → lookup i ((i, v) ∷ m) ≡ some v
  unfolding lookup
  lookup-head i v m = ground arith

  -- What the search finds, from a player and a place on the path that it has so far.
  abbrev pub Found :
      Projectile fl → Segment fl → Option ℕ → Float → Map (Player fl) → Option ℕ → Type 0
  Found q s hit at m r =
      ((r ≡ hit) × All (λ e. earlier q s at e ≡ false) m)
      ⊎ ((t : ℕ) × (p : Player fl) × (r ≡ some t)
          × (lookup t m ≡ some p)
          × (earlier q s at (t, p) ≡ true)
          × All (λ e. earlier q s (closest fl s p) e ≡ false) m)

  hits-earlier :
      (q : Projectile fl) (s : Segment fl) (e : ℕ × Player fl) (at : Float)
      → hits fl s q.owner_id e.0 e.1 at ≡ earlier q s at e
  unfolding hits meets
  hits-earlier q s e at = ground arith

  module _ (laws : Orders fl) where
    -- Not met earlier than a place, so not earlier than one before it.
    earlier-before :
        (q : Projectile fl) (s : Segment fl) (a b : Float) (e : ℕ × Player fl)
        → lt a b ≡ true
        → earlier q s b e ≡ false
        → earlier q s a e ≡ false
    earlier-before q s a b e h k = elim (Bool-cases (lt (closest fl s e.1) a)) [
      | inl u ↦ ground (arith, u, k, laws.trans (closest fl s e.1) a b u h)
      | inr u ↦ ground (arith, u)
    ]

    earlier_self :
        (q : Projectile fl) (s : Segment fl) (e : ℕ × Player fl)
        → earlier q s (closest fl s e.1) e ≡ false
    earlier_self q s e = ground (arith, laws.irrefl (closest fl s e.1))

    Found-better :
        (q : Projectile fl) (s : Segment fl) (hit : Option ℕ) (at : Float) (i : ℕ) (p : Player fl)
        (m : Map (Player fl)) (r : Option ℕ)
        → mem i (keys m) ≡ false
        → earlier q s at (i, p) ≡ true
        → lt (closest fl s p) at ≡ true
        → Found q s (some i) (closest fl s p) m r
        → Found q s hit at ((i, p) ∷ m) r
    Found-better q s hit at i p m r d b l (inl (e, none_other)) =
        inr (i, p, e, lookup-head i p m, b, (earlier_self q s (i, p), none_other))
    Found-better q s hit at i p m r d b l (inr (t, w, e, f, u, first)) =
        let before : lt (closest fl s w) (closest fl s p) ≡ true = ground (arith, u) in
        inr (
          t,
          w,
          e,
          lookup-later i t p w m d f,
          ground (arith, u, laws.trans (closest fl s w) (closest fl s p) at before l),
          (
            earlier-before q s (closest fl s w) (closest fl s p) (i, p) before
                (earlier_self q s (i, p)),
            first,
          ),
        )

    Found-worse :
        (q : Projectile fl) (s : Segment fl) (hit : Option ℕ) (at : Float) (i : ℕ) (p : Player fl)
        (m : Map (Player fl)) (r : Option ℕ)
        → mem i (keys m) ≡ false
        → earlier q s at (i, p) ≡ false
        → Found q s hit at m r
        → Found q s hit at ((i, p) ∷ m) r
    Found-worse q s hit at i p m r d b (inl (e, none_other)) = inl (e, (b, none_other))
    Found-worse q s hit at i p m r d b (inr (t, w, e, f, u, first)) =
        let before : lt (closest fl s w) at ≡ true = ground (arith, u) in
        inr (
          t,
          w,
          e,
          lookup-later i t p w m d f,
          u,
          (earlier-before q s (closest fl s w) at (i, p) before b, first),
        )

    pub find_hit-Found :
        (q : Projectile fl) (s : Segment fl) (m : Map (Player fl)) (hit : Option ℕ) (at : Float)
        → IsDistinct (keys m)
        → Found q s hit at m (find_hit fl s q.owner_id m hit at)
    unfolding find_hit keys
    find_hit-Found q s [] hit at d = inl (refl, tt)
    find_hit-Found q s ((i, p) ∷ m) hit at d = elim (Bool-cases (hits fl s q.owner_id i p at)) [
      | inl hit_now ↦
          let b = sym (hits-earlier q s (i, p) at) ∙ hit_now in
          rw hit_now (
            Found-better q s hit at i p m _ d.0 b (ground (arith, b))
              (find_hit-Found q s m (some i) (closest fl s p) d.1))
      | inr no_hit ↦ rw no_hit (
          Found-worse q s hit at i p m _ d.0 (sym (hits-earlier q s (i, p) at) ∙ no_hit)
            (find_hit-Found q s m hit at d.1))
    ]
