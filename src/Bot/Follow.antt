-- ===== src/Bot/Follow.antt =====
-- examples/bot_client.cc: the world of a client beside the simulation of the server.
use my_game_server.Base.{
  ℕ, ◌==◌, if◌then◌else◌, Bool, true, false, List, [], ◌∷◌, ◌++◌, Option, none, some, map, ◌≡◌, ◌≢◌,
  subst, refl, arith, Bool-cases, inl, inr, ap, ◌∙◌, sym, All, if_true, if_false, Option-cases,
}
use my_game_server.Base.Map.{Map, lookup, keys}
use my_game_server.Base.IdSet.{mem}
use my_game_server.BattleSim.Defs.{Floats, Player, Sim}
use my_game_server.BattleSim.Changes.{place, id_of}
use my_game_server.BattleSim.{player_ids}
use my_game_server.Room.{broadcast}
use my_game_server.Room.Defs.{
  Snapshot, PlayerState, Message, Effect, to, sets_ticker, queues_stop, on_end, fill_state,
  no_player_state,
}
use my_game_server.Bot.{merge_all}
use my_game_server.Bot.Merge.{view, view-map, view-merge_all, All-Mem}
use my_game_server.Bot.Track.{Watch, see, sees}

-- Whether a player of the room has the connection.
unfoldable pub bound : ℕ → Map (Option ℕ) → Bool
bound conn [] = false
bound conn ((pid, none) ∷ cs) = bound conn cs
bound conn ((pid, some c) ∷ cs) = if c == conn then true else bound conn cs

-- A player's key is its id.
abbrev pub Named : ℕ → Option ℕ → Type 0
Named k none = Unit
Named k (some id) = id ≡ k

module _ (fl : Floats) where
  open fl use {Float}

  -- The messages that go to the connection.
  unfoldable pub sent_to : ℕ → List (Effect fl) → List (Message fl)
  sent_to conn [] = []
  sent_to conn (to c m ∷ es) = let rest = sent_to conn es in if c == conn then m ∷ rest else rest
  sent_to conn (sets_ticker ∷ es) = sent_to conn es
  sent_to conn (queues_stop ∷ es) = sent_to conn es
  sent_to conn (on_end id winner ∷ es) = sent_to conn es

  pub sees-append :
      (ms ns : List (Message fl)) (w : Watch fl) → sees fl (ms ++ ns) w ≡ sees fl ns (sees fl ms w)
  unfolding sees
  sees-append [] ns w = refl
  sees-append (m ∷ ms) ns w = sees-append ms ns (see fl m w)

  pub sent_to-append :
      (conn : ℕ) (es fs : List (Effect fl))
      → sent_to conn (es ++ fs) ≡ sent_to conn es ++ sent_to conn fs
  unfolding sent_to
  sent_to-append conn [] fs = refl
  sent_to-append conn (to c m ∷ es) fs = ground (arith, sent_to-append conn es fs)
  sent_to-append conn (sets_ticker ∷ es) fs = sent_to-append conn es fs
  sent_to-append conn (queues_stop ∷ es) fs = sent_to-append conn es fs
  sent_to-append conn (on_end id winner ∷ es) fs = sent_to-append conn es fs

  -- What a watch has after the effects.
  unfoldable pub after : ℕ → List (Effect fl) → Watch fl → Watch fl
  unfolding sent_to
  after conn es w = sees fl (sent_to conn es) w

  pub after-append :
      (conn : ℕ) (es fs : List (Effect fl)) (w : Watch fl)
      → after conn (es ++ fs) w ≡ after conn fs (after conn es w)
  unfolding after
  after-append conn es fs w =
      ap (λ ms. sees fl ms w) (sent_to-append conn es fs)
      ∙ sees-append (sent_to conn es) (sent_to conn fs) w

  pub after-ticker : (conn : ℕ) (w : Watch fl) → after conn (sets_ticker ∷ []) w ≡ w
  unfolding after sees
  after-ticker conn w = refl

  pub after-end :
      (conn id winner : ℕ) (w : Watch fl) → after conn (queues_stop ∷ (on_end id winner ∷ [])) w ≡ w
  unfolding after sees
  after-end conn id winner w = refl

  pub after-two :
      (conn c : ℕ) (m n : Message fl) (w : Watch fl)
      → after conn (to c m ∷ (to c n ∷ [])) w ≡ (if c == conn then see fl n (see fl m w) else w)
  unfolding after sees
  after-two conn c m n w = elim (Bool-cases (c == conn)) [ inl e ↦ rw e refl | inr e ↦ rw e refl ]

  -- Whoever returned sees nothing more.
  sees-over : (ms : List (Message fl)) (w : Watch fl) → w.over ≡ true → sees fl ms w ≡ w
  unfolding sees
  sees-over [] w e = refl
  sees-over (m ∷ ms) w e = ap (sees fl ms) (if_true _ _ e) ∙ sees-over ms w e

  pub after-over :
      (conn : ℕ) (es : List (Effect fl)) (w : Watch fl) → w.over ≡ true → after conn es w ≡ w
  unfolding after
  after-over conn es w e = sees-over (sent_to conn es) w e

  pub after-unbound :
      (conn : ℕ) (m : Message fl) (cs : Map (Option ℕ)) (w : Watch fl)
      → bound conn cs ≡ false
      → after conn (broadcast fl m cs) w ≡ w
  unfolding after sent_to broadcast bound sees
  after-unbound conn m [] w e = refl
  after-unbound conn m ((pid, none) ∷ cs) w e = after-unbound conn m cs w e
  after-unbound conn m ((pid, some c) ∷ cs) w e = ground (arith, after-unbound conn m cs w)

  module _ {ℓ} (Q : Watch fl → Type ℓ) (conn : ℕ) (m : Message fl) where
    pub after-again :
        ((w : Watch fl) → Q w → Q (see fl m w))
        → (cs : Map (Option ℕ)) (w : Watch fl) → Q w
        → Q (after conn (broadcast fl m cs) w)
    unfolding after sent_to broadcast sees
    after-again again [] w q = q
    after-again again ((pid, none) ∷ cs) w q = after-again again cs w q
    after-again again ((pid, some c) ∷ cs) w q = elim (Bool-cases (c == conn)) [
      | inl e ↦ rw e (after-again again cs (see fl m w) (again w q))
      | inr e ↦ rw e (after-again again cs w q)
    ]

    -- A broadcast reaches a connection once for each player that has it.
    pub after-bound :
        ((w : Watch fl) → Q w → Q (see fl m w))
        → (cs : Map (Option ℕ)) (w : Watch fl) → bound conn cs ≡ true
        → Q (see fl m w)
        → Q (after conn (broadcast fl m cs) w)
    unfolding after sent_to broadcast bound sees
    after-bound again [] w e q = absurd (cc)
    after-bound again ((pid, none) ∷ cs) w e q = after-bound again cs w e q
    after-bound again ((pid, some c) ∷ cs) w e q = elim (Bool-cases (c == conn)) [
      | inl h ↦ rw h (after-again again cs (see fl m w) q)
      | inr h ↦ rw h (after-bound again cs w (sym (if_false _ _ h) ∙ e) q)
    ]

  -- The entries of the world and of the simulation agree: who, where, and with how many hit points.
  abbrev pub shown : Option (PlayerState fl) → Option (ℕ × Float × Float × ℕ)
  shown none = none
  shown (some p) = some (p.player_id, p.x, p.y, p.hp)

  abbrev pub Agrees : ℕ → Sim fl → Snapshot fl → Type 0
  Agrees k s world = shown (view fl k world.players) ≡ place fl (lookup k s.players)

  abbrev pub Follows : Sim fl → Snapshot fl → Type 0
  Follows s world = (k : ℕ) → Agrees k s world

  abbrev pub IsKeyed : Sim fl → Type 0
  IsKeyed s = (k : ℕ) → Named k (id_of fl (lookup k s.players))

  abbrev pub filled : Sim fl → ℕ → PlayerState fl
  filled s id = fill_state fl s id (no_player_state fl)

  filled_lem :
      (s : Sim fl) (k : ℕ)
      → IsKeyed s
      → id_of fl (lookup k s.players) ≢ none
      → ((filled s k).player_id ≡ k) × (shown (some (filled s k)) ≡ place fl (lookup k s.players))
  unfolding fill_state
  filled_lem s k n h = elim (Option-cases (lookup k s.players)) [
    | inl e ↦ absurd (h (ap (id_of fl) e))
    | inr (p, e) ↦
        let same : p.id ≡ k = subst (λ o. Named k (id_of fl o)) e (n k) in rw e (same, refl)
  ]

  present : (k : ℕ) (m : Map (Player fl)) → mem k (keys m) ≡ true → id_of fl (lookup k m) ≢ none
  unfolding mem keys lookup
  present k [] h = absurd (cc)
  present k ((id, p) ∷ m) h = ground (arith, present k m)

  missing : (k : ℕ) (m : Map (Player fl)) → mem k (keys m) ≡ false → place fl (lookup k m) ≡ none
  unfolding mem keys lookup
  missing k [] h = refl
  missing k ((id, p) ∷ m) h = ground (arith, missing k m)

  -- A full snapshot shows the simulation.
  pub full-Follows :
      (s : Sim fl)
      → IsKeyed s
      → (k : ℕ)
      → shown (view fl k (map (filled s) (player_ids fl s))) ≡ place fl (lookup k s.players)
  unfolding player_ids
  full-Follows s n k = elim (Bool-cases (mem k (keys s.players))) [
    | inl e ↦ ap shown (seen ∙ if_true _ _ e) ∙ (filled_lem s k n (there k e)).1
    | inr e ↦ ap shown (seen ∙ if_false _ _ e) ∙ sym (missing k s.players e)
  ]
    where
      there : (i : ℕ) → mem i (keys s.players) ≡ true → id_of fl (lookup i s.players) ≢ none
      there i m = present i s.players m

      names : All (λ id. (filled s id).player_id ≡ id) (keys s.players)
      names =
          All-Mem (λ id. (filled s id).player_id ≡ id) (keys s.players)
            (λ i m. (filled_lem s i n (there i m)).0)

      seen :
          view fl k (map (filled s) (keys s.players))
          ≡ (if mem k (keys s.players) then some (filled s k) else none)
      seen = view-map fl k (filled s) (keys s.players) names

  -- So does a world that agrees on the players whom an incremental snapshot leaves out, once it is merged.
  pub merge-Agrees :
      (s : Sim fl) (ids : List ℕ) (ws : List (PlayerState fl))
      → IsKeyed s
      → ((k : ℕ) → mem k ids ≡ true → id_of fl (lookup k s.players) ≢ none)
      → (k : ℕ) → (mem k ids ≡ false → shown (view fl k ws) ≡ place fl (lookup k s.players))
      → shown (view fl k (merge_all fl (map (filled s) ids) ws)) ≡ place fl (lookup k s.players)
  merge-Agrees s ids ws n there k h = elim (Bool-cases (mem k ids)) [
    | inl e ↦
        ap shown (view-merge_all fl k (filled s) ids ws names ∙ if_true _ _ e)
        ∙ (filled_lem s k n (there k e)).1
    | inr e ↦ ap shown (view-merge_all fl k (filled s) ids ws names ∙ if_false _ _ e) ∙ h e
  ]
    where
      names : All (λ id. (filled s id).player_id ≡ id) ids
      names =
          All-Mem (λ id. (filled s id).player_id ≡ id) ids (λ i m. (filled_lem s i n (there i m)).0)
