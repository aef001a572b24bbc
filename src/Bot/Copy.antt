-- ===== src/Bot/Copy.antt =====
-- examples/bot_client.cc, game/Room.cc and game/BattleSim.cc: a client that hears a room keeps a copy of
-- the players of its battle.
use my_game_server.Base.{
  ℕ, ◌+◌, ◌==◌, if◌then◌else◌, true, false, List, [], ◌∷◌, ◌++◌, Option, none, some, map, ◌≡◌, ◌≢◌,
  subst, refl, Bool-cases, inl, inr, ◌⊎◌, ap, ◌∙◌, sym, if_true, if_false, ==→eq,
}
use my_game_server.Base.Map.{Map, lookup, insert, lookup-insert}
use my_game_server.BattleSim
use my_game_server.BattleSim.Defs.{Floats, Input, Player, Sim}
use my_game_server.BattleSim.Changes.{id_of}
use my_game_server.BattleSim.{
  player_ids, projectile_ids, apply_input, take_removed_projectile_ids, winner_or_zero, add_player,
}
use my_game_server.Room.{
  seat, make, broadcast, send_full, start, force_end, stop, reset_ticker, play, judge, on_tick, Op,
  starts, stops, resets, ticks, inputs, rebinds, drops, forces, do_op, do_ops,
}
use my_game_server.Room.Defs.{enter_room, Effect, sets_ticker, Room, emit}
use my_game_server.Bot.{Bot, Heard, of_room, is_done, turns}
use my_game_server.Bot.Track.{Watch, heard, watching, turns-watching}
use my_game_server.Bot.Follow.{sent_to, bound, after, Follows, Named, IsKeyed}
use my_game_server.Bot.Replica.{
  Tracks, InStep, Tells-Tracks, Tracks-still, start-Tracks, end_battle-Tracks, start-open,
}
use my_game_server.Bot.Tasks.{rebind-Tracks, drop-Tracks, input-Tracks}
use my_game_server.Bot.Ticks.{play-Tracks}

module _ (fl : Floats) (conn : ℕ) where
  judge-Tracks :
      (r : Room fl) (w0 : Watch fl) → InStep fl conn r w0 → InStep fl conn (judge fl r) w0
  unfolding judge
  judge-Tracks r w0 t = elim (Bool-cases (winner_or_zero fl r.sim == 0)) [
    | inl e ↦ subst (λ r'. InStep fl conn r' w0) (sym (if_true _ _ e)) t
    | inr e ↦
        subst (λ r'. InStep fl conn r' w0) (sym (if_false _ _ e))
          (end_battle-Tracks fl conn (winner_or_zero fl r.sim) r w0 t)
  ]

  unless_ended :
      (r : Room fl) (w0 : Watch fl) (r' : Room fl)
      → InStep fl conn r w0
      → (r.ended ≡ false → InStep fl conn r' w0)
      → InStep fl conn (if r.ended then r else r') w0
  unless_ended r w0 r' t h = elim (Bool-cases r.ended) [
    | inl e ↦ subst (λ r'. InStep fl conn r' w0) (sym (if_true _ _ e)) t
    | inr e ↦ subst (λ r'. InStep fl conn r' w0) (sym (if_false _ _ e)) (h e)
  ]

  on_tick-Tracks :
      (r : Room fl) (w0 : Watch fl) → InStep fl conn r w0 → InStep fl conn (on_tick fl r) w0
  unfolding on_tick
  on_tick-Tracks r w0 t =
      unless_ended r w0 _ t (λ e. judge-Tracks (play fl r) w0 (play-Tracks fl conn r w0 e t))

  do_op-Tracks :
      (o : Op fl) (r : Room fl) (w0 : Watch fl)
      → InStep fl conn r w0
      → InStep fl conn (do_op fl o r) w0
  unfolding do_op force_end
  do_op-Tracks starts r w0 t = start-Tracks fl conn r w0 t
  do_op-Tracks stops r w0 t =
      Tracks-still fl conn r (stop fl r) _ refl refl (λ h. refl) (λ h. inl h) t
  do_op-Tracks resets r w0 t =
      Tracks-still fl conn r (reset_ticker fl r) _ refl refl (λ h. h) (λ h. inl h) t
  do_op-Tracks ticks r w0 t = elim (Bool-cases r.ticker) [
    | inl e ↦ subst (λ r'. InStep fl conn r' w0) (sym (if_true _ _ e)) (on_tick-Tracks r w0 t)
    | inr e ↦ subst (λ r'. InStep fl conn r' w0) (sym (if_false _ _ e)) t
  ]
  do_op-Tracks (inputs pid i) r w0 t = input-Tracks fl conn pid i r w0 t
  do_op-Tracks (rebinds pid c) r w0 t = rebind-Tracks fl conn pid c r w0 t
  do_op-Tracks (drops pid) r w0 t = drop-Tracks fl conn pid r w0 t
  do_op-Tracks (forces winner) r w0 t =
      unless_ended r w0 _ t (λ e. end_battle-Tracks fl conn winner r w0 t)

  do_ops-Tracks :
      (os : List (Op fl)) (r : Room fl) (w0 : Watch fl)
      → InStep fl conn r w0
      → InStep fl conn (do_ops fl os r) w0
  unfolding do_ops
  do_ops-Tracks [] r w0 t = t
  do_ops-Tracks (o ∷ os) r w0 t = do_ops-Tracks os (do_op fl o r) w0 (do_op-Tracks o r w0 t)

  -- A room before its start: the players have their keys, and nothing was sent.
  abbrev Fresh : Room fl → Type 0
  Fresh r = IsKeyed fl r.sim × (r.out ≡ [])

  insert-Named :
      (k pid : ℕ) (p : Player fl) (m : Map (Player fl))
      → p.id ≡ pid
      → Named k (id_of fl (lookup k m))
      → Named k (id_of fl (lookup k (insert pid p m)))
  insert-Named k pid p m e n =
      subst (λ o. Named k (id_of fl o)) (sym (lookup-insert pid k p m))
        (by_key (Bool-cases (pid == k)))
    where
      by_key :
          ((pid == k) ≡ true) ⊎ ((pid == k) ≡ false)
          → Named k (id_of fl (if pid == k then some p else lookup k m))
      by_key (inl h) = subst (λ o. Named k (id_of fl o)) (sym (if_true _ _ h)) (e ∙ ==→eq pid k h)
      by_key (inr h) = subst (λ o. Named k (id_of fl o)) (sym (if_false _ _ h)) n

  add_player-IsKeyed :
      (pid : ℕ) (x y : fl.Float) (s : Sim fl) → IsKeyed fl s → IsKeyed fl (add_player fl pid x y s)
  unfolding add_player
  add_player-IsKeyed pid x y s n k = insert-Named k pid _ s.players refl (n k)

  seat-Fresh :
      (i : ℕ) (ps : List (ℕ × Option ℕ)) (r : Room fl)
      → Fresh r
      → Fresh (seat fl i ps r) × ((seat fl i ps r).id ≡ r.id)
  unfolding seat
  seat-Fresh i [] r h = (h, refl)
  seat-Fresh i ((pid, c) ∷ ps) r (n, o) =
      seat-Fresh (i + 1) ps
        (record r { sim = add_player fl pid _ _ r.sim; conns = insert pid c r.conns })
        (add_player-IsKeyed pid _ _ r.sim n, o)

  start-first :
      (r : Room fl) (w : Watch fl)
      → Fresh r
      → r.id ≢ 0
      → w.over ≡ false
      → InStep fl conn (start fl r) w
  unfolding start emit
  start-first r w (n, o) i e =
      subst (λ es. Tracks fl conn (start fl r) (after fl conn (es ++ effects) w)) (sym o)
        (Tells-Tracks fl conn (start fl r) _ i n (start-open fl conn r i n w e))
    where
      effects : List (Effect fl)
      effects =
          broadcast fl (enter_room r.id (player_ids fl r.sim)) r.conns
          ++ (send_full fl r r.conns ++ (sets_ticker ∷ []))

  abbrev bare : ℕ → Room fl
  bare id = record {
    id = id;
    sim = BattleSim.Defs.new fl;
    conns = [];
    ticker = false;
    tick = 0;
    ended = false;
    out = [];
  }

  make-Fresh :
      (id : ℕ) (ps : List (ℕ × Option ℕ)) → Fresh (make fl id ps) × ((make fl id ps).id ≡ id)
  unfolding make lookup
  make-Fresh id ps = seat-Fresh 0 ps (bare id) (empty, refl)
    where
      empty : IsKeyed fl (bare id).sim
      empty k = tt

  -- A room that is made and started, and then runs the tasks.
  abbrev pub battle : ℕ → List (ℕ × Option ℕ) → List (Op fl) → Room fl
  battle id ps os = do_ops fl os (start fl (make fl id ps))

  -- A room is made with an id that is not 0 and started, and then runs any tasks. A client whose
  -- connection a player of the room has in the end, and that hears, in any rounds of its loop, what the
  -- room sent to that connection, then has for every id the player of the simulation: none where there is
  -- none, and else with its id, its place and its hit points.
  pub turns-Follows :
      (id : ℕ) (ps : List (ℕ × Option ℕ)) (os : List (Op fl)) (b : Bot fl)
      (ts : List (ℕ × Option (Heard fl)))
      → id ≢ 0
      → b.done ≡ none
      → heard fl ts ≡ map of_room (sent_to fl conn (battle id ps os).out)
      → bound conn (battle id ps os).conns ≡ true
      → Follows fl (battle id ps os).sim (turns fl ts b).world
  unfolding after
  turns-Follows id ps os b ts i d e c =
      let ((n, o), same) = make-Fresh id ps in
      let t = do_ops-Tracks os _ (watching fl b) (
        start-first (make fl id ps) (watching fl b) (n, o) (λ z. i (sym same ∙ z))
          (ap is_done d)) in
      subst (λ w. Follows fl (battle id ps os).sim w.world) (sym (turns-watching fl ts _ b e))
        (t.follows c)
