-- ===== src/Bot/Replica.antt =====
-- examples/bot_client.cc and game/Room.cc: a client that hears a room is in step with it. What a room
-- does to the battle as a whole: it starts and it ends.
use my_game_server.Base.{
  ℕ, Bool, true, false, List, [], ◌∷◌, ◌++◌, Option, ◌≡◌, ◌≢◌, subst, refl, arith, Bool-cases, inl,
  inr, ◌⊎◌, ◌∙◌, sym, ne→==,
}
use my_game_server.Base.Map.{Map}
use my_game_server.BattleSim.Defs.{Floats}
use my_game_server.BattleSim.{player_ids}
use my_game_server.Room.{broadcast, full_snapshot, send_full, start, end_battle}
use my_game_server.Room.Defs.{enter_room, snapshot, battle_end, Effect, sets_ticker, Room, emit}
use my_game_server.Bot.{merge_snapshot}
use my_game_server.Bot.Track.{Watch, see}
use my_game_server.Bot.Follow.{
  bound, after, after-append, after-ticker, after-end, after-over, after-unbound, after-again,
  after-bound, Follows, IsKeyed, full-Follows,
}

pub differ : {b : Bool} → b ≡ false → b ≡ true → ⊥
differ e f = cc

module _ (fl : Floats) (conn : ℕ) where
  -- The client is in step with the room.
  pub record Tracks (r : Room fl) (w : Watch fl) : Type 0 where
    pub has_id : r.id ≢ 0
    pub keyed : IsKeyed fl r.sim
    pub follows : bound conn r.conns ≡ true → Follows fl r.sim w.world
    pub returned : w.over ≡ true → (r.ended ≡ true) × Follows fl r.sim w.world

  -- The client that was `w0` and heard all that the room sent.
  abbrev pub InStep : Room fl → Watch fl → Type 0
  InStep r w0 = Tracks r (after fl conn r.out w0)

  -- What the client has while `main` runs.
  abbrev pub Tells : Room fl → Watch fl → Type 0
  Tells r w = (w.over ≡ false) × (bound conn r.conns ≡ true → Follows fl r.sim w.world)

  pub Tells-Tracks :
      (r : Room fl) (w : Watch fl) → r.id ≢ 0 → IsKeyed fl r.sim → Tells r w → Tracks r w
  Tells-Tracks r w i n t = record {
    has_id = i;
    keyed = n;
    follows = t.1;
    returned = λ o. absurd (differ t.0 o);
  }

  -- Nothing that the client follows has changed.
  pub Tracks-still :
      (r r' : Room fl) (w : Watch fl)
      → r'.id ≡ r.id
      → r'.sim ≡ r.sim
      → (r.ended ≡ true → r'.ended ≡ true)
      → (bound conn r'.conns ≡ true → (bound conn r.conns ≡ true) ⊎ (w.over ≡ true))
      → Tracks r w
      → Tracks r' w
  Tracks-still r r' w i s e b t = record {
    has_id = λ z. t.has_id (sym i ∙ z);
    keyed = subst (λ sim. IsKeyed fl sim) (sym s) t.keyed;
    follows = λ h. elim (b h) [
      | inl old ↦ subst (λ sim. Follows fl sim w.world) (sym s) (t.follows old)
      | inr over ↦ subst (λ sim. Follows fl sim w.world) (sym s) (t.returned over).1
    ];
    returned =
        λ o. (e (t.returned o).0, subst (λ sim. Follows fl sim w.world) (sym s) (t.returned o).1);
  }

  pub see_full :
      (r : Room fl) (w : Watch fl)
      → IsKeyed fl r.sim
      → w.over ≡ false
      → let w' = see fl (snapshot (full_snapshot fl r)) w in
        (w'.over ≡ false) × Follows fl r.sim w'.world
  unfolding full_snapshot merge_snapshot
  see_full r w n e = rw e (refl, full-Follows fl r.sim n)

  pub see_enter :
      (id : ℕ) (ids : List ℕ) (w : Watch fl)
      → id ≢ 0
      → w.over ≡ false
      → (see fl (enter_room id ids) w).over ≡ false
  see_enter id ids w i e = rw e (ne→== id 0 i)

  module _ (r : Room fl) (t_id : r.id ≢ 0) (n : IsKeyed fl r.sim) where
    enters-open :
        (ids : List ℕ) (cs : Map (Option ℕ)) (w : Watch fl)
        → w.over ≡ false
        → (after fl conn (broadcast fl (enter_room r.id ids) cs) w).over ≡ false
    enters-open ids cs w e =
        after-again fl (λ w. w.over ≡ false) conn (enter_room r.id ids)
          (λ w e. see_enter r.id ids w t_id e) cs w e

    send_full-Tells :
        (w : Watch fl) → w.over ≡ false → Tells r (after fl conn (send_full fl r r.conns) w)
    unfolding send_full
    send_full-Tells w e = elim (Bool-cases (bound conn r.conns)) [
      | inl b ↦
          let (o, f) =
            after-bound fl (λ w. (w.over ≡ false) × Follows fl r.sim w.world) conn
              (snapshot (full_snapshot fl r)) (λ w q. see_full r w n q.0) r.conns w b
              (see_full r w n e) in
          (o, λ h. f)
      | inr b ↦
          subst (Tells r) (sym (after-unbound fl conn (snapshot (full_snapshot fl r)) r.conns w b))
            (e, λ h. absurd (differ b h))
    ]

    pub start-open :
        (w : Watch fl)
        → w.over ≡ false
        → Tells r (
            after fl conn
              (broadcast fl (enter_room r.id (player_ids fl r.sim)) r.conns
                ++ (send_full fl r r.conns ++ (sets_ticker ∷ [])))
              w)
    start-open w e =
        subst (Tells r)
          (sym (
            after-append fl conn (broadcast fl (enter_room r.id (player_ids fl r.sim)) r.conns) _ w
            ∙ after-append fl conn (send_full fl r r.conns) (sets_ticker ∷ []) _
            ∙ after-ticker fl conn _))
          (send_full-Tells _ (enters-open (player_ids fl r.sim) r.conns w e))

  -- Effects reach a client that runs, or find that it returned.
  pub emit-Tracks :
      (r r' : Room fl) (es : List (Effect fl)) (w0 : Watch fl)
      → ((w : Watch fl) → Tracks r w → w.over ≡ false → Tracks r' (after fl conn es w))
      → ((w : Watch fl) → Tracks r w → w.over ≡ true → Tracks r' w)
      → InStep r w0
      → Tracks r' (after fl conn (r.out ++ es) w0)
  emit-Tracks r r' es w0 runs over t =
      subst (Tracks r') (sym (after-append fl conn r.out es w0)) (by_over (Bool-cases w.over))
    where
      w : Watch fl
      w = after fl conn r.out w0

      by_over : (w.over ≡ true) ⊎ (w.over ≡ false) → Tracks r' (after fl conn es w)
      by_over (inl o) = subst (Tracks r') (sym (after-over fl conn es w o)) (over w t o)
      by_over (inr o) = runs w t o

  pub start-Tracks : (r : Room fl) (w0 : Watch fl) → InStep r w0 → InStep (start fl r) w0
  unfolding start emit
  start-Tracks r w0 t =
      emit-Tracks r (start fl r) _ w0
        (λ w t o. Tells-Tracks (start fl r) _ t.has_id t.keyed (start-open r t.has_id t.keyed w o))
        (λ w t o. Tracks-still r (start fl r) w refl refl (λ h. h) (λ h. inl h) t) t

  pub end_battle-Tracks :
      (winner : ℕ) (r : Room fl) (w0 : Watch fl) → InStep r w0 → InStep (end_battle fl winner r) w0
  unfolding end_battle emit
  end_battle-Tracks winner r w0 t =
      emit-Tracks r (end_battle fl winner r) _ w0
        (λ w t o.
          subst (Tracks (end_battle fl winner r))
            (sym (
              after-append fl conn (broadcast fl (battle_end winner) r.conns) _ w
              ∙ after-end fl conn r.id winner _))
            (told w t o))
        (λ w t o. Tracks-still r (end_battle fl winner r) w refl refl (λ h. refl) (λ h. inl h) t) t
    where
      see_end : (w : Watch fl) → (see fl (battle_end winner) w).world ≡ w.world
      see_end w = ground arith

      told :
          (w : Watch fl)
          → Tracks r w
          → w.over ≡ false
          → Tracks
              (end_battle fl winner r)
              (after fl conn (broadcast fl (battle_end winner) r.conns) w)
      told w t o = elim (Bool-cases (bound conn r.conns)) [
        | inl b ↦
            let same =
              after-bound fl (λ w'. w'.world ≡ w.world) conn (battle_end winner)
                (λ w' q. see_end w' ∙ q) r.conns w b (see_end w) in
            let f = subst (Follows fl r.sim) (sym same) (t.follows b) in
            record {
              has_id = t.has_id;
              keyed = t.keyed;
              follows = λ h. f;
              returned = λ h. (refl, f);
            }
        | inr b ↦
            subst (Tracks (end_battle fl winner r))
              (sym (after-unbound fl conn (battle_end winner) r.conns w b))
              (Tracks-still r (end_battle fl winner r) w refl refl (λ h. refl) (λ h. inl h) t)
      ]
