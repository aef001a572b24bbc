-- ===== src/Bot/Tasks.antt =====
-- examples/bot_client.cc and game/Room.cc: what the tasks of single players do to a client that is in
-- step: a new connection, a lost one, an input.
use my_game_server.Base.{
  ℕ, ◌==◌, true, false, [], ◌∷◌, Option, none, some, ◌≡◌, subst, refl, arith, Bool-cases, inl, inr,
  ◌⊎◌, ap, ◌∙◌, sym, if_true, if_false, Option-cases, ==→eq,
}
use my_game_server.Base.Map.{Map, lookup, insert, lookup-insert}
use my_game_server.BattleSim.Defs.{Floats, Input, Player, Sim}
use my_game_server.BattleSim.Changes.{place, id_of}
use my_game_server.BattleSim.{player_ids, apply_input}
use my_game_server.Room.{full_snapshot, on_input, rebind_found, rebind, drop_found, drop_conn}
use my_game_server.Room.Defs.{enter_room, snapshot, to, Room, emit}
use my_game_server.Bot.Track.{Watch}
use my_game_server.Bot.Follow.{bound, after, after-two, Named}
use my_game_server.Bot.Replica.{
  Tracks, InStep, Tells, Tells-Tracks, Tracks-still, see_full, see_enter, emit-Tracks, differ,
}

bound-insert-none :
    (conn pid : ℕ) (cs : Map (Option ℕ))
    → bound conn (insert pid none cs) ≡ true
    → bound conn cs ≡ true
unfolding bound insert
bound-insert-none conn pid [] h = absurd (cc)
bound-insert-none conn pid ((i, none) ∷ cs) h = ground (arith, bound-insert-none conn pid cs)
bound-insert-none conn pid ((i, some c) ∷ cs) h = ground (arith, bound-insert-none conn pid cs)

bound-insert-some :
    (conn c pid : ℕ) (cs : Map (Option ℕ))
    → (c == conn) ≡ false
    → bound conn (insert pid (some c) cs) ≡ true
    → bound conn cs ≡ true
unfolding bound insert
bound-insert-some conn c pid [] e h = ground arith
bound-insert-some conn c pid ((i, none) ∷ cs) e h =
    ground (arith, bound-insert-some conn c pid cs e)
bound-insert-some conn c pid ((i, some d) ∷ cs) e h =
    ground (arith, bound-insert-some conn c pid cs e)

module _ (fl : Floats) where
  apply_input-place :
      (pid k : ℕ) (i : Input fl) (s : Sim fl)
      → let s' = apply_input fl pid i s in
        (id_of fl (lookup k s'.players) ≡ id_of fl (lookup k s.players))
        × (place fl (lookup k s'.players) ≡ place fl (lookup k s.players))
  unfolding apply_input
  apply_input-place pid k i s = elim (Option-cases (lookup pid s.players)) [
    | inl e ↦ rw e (refl, refl)
    | inr (p, e) ↦ rw e (by_key p e (Bool-cases (pid == k)))
  ]
    where
      by_key :
          (p : Player fl)
          → lookup pid s.players ≡ some p
          → ((pid == k) ≡ true) ⊎ ((pid == k) ≡ false)
          → let m = insert pid (record p { input = i; has_input = true; seq = i.seq }) s.players in
            (id_of fl (lookup k m) ≡ id_of fl (lookup k s.players))
            × (place fl (lookup k m) ≡ place fl (lookup k s.players))
      by_key p e (inl h) = ground (
        arith,
        lookup-insert pid k (record p { input = i; has_input = true; seq = i.seq }) s.players,
        ap (λ j. lookup j s.players) (==→eq pid k h),
      )
      by_key p e (inr h) = ground (
        arith,
        lookup-insert pid k (record p { input = i; has_input = true; seq = i.seq }) s.players,
      )

module _ (fl : Floats) (conn : ℕ) where
  pub rebind-Tracks :
      (pid c : ℕ) (r : Room fl) (w0 : Watch fl)
      → InStep fl conn r w0
      → InStep fl conn (rebind fl pid c r) w0
  unfolding rebind emit
  rebind-Tracks pid c r w0 t = elim (Option-cases (lookup pid r.conns)) [
    | inl e ↦ rw e t
    | inr (old, e) ↦ rw e (
        emit-Tracks fl conn r (rebind_found fl (some old) pid c r) _ w0
          (λ w t o. Tells-Tracks fl conn _ _ t.has_id t.keyed (rebound w t o))
          (λ w t o.
            Tracks-still fl conn r (rebind_found fl (some old) pid c r) w refl refl (λ h. h)
              (λ h. inr o) t)
          t)
  ]
    where
      r' : Room fl
      r' = record r { conns = insert pid (some c) r.conns }

      rebound :
          (w : Watch fl)
          → Tracks fl conn r w
          → w.over ≡ false
          → Tells fl conn r' (
              after fl conn
                (to c (enter_room r.id (player_ids fl r.sim))
                  ∷ (to c (snapshot (full_snapshot fl r)) ∷ []))
                w)
      rebound w t o = elim (Bool-cases (c == conn)) [
        | inl e ↦
            let enter = see_enter fl conn r.id (player_ids fl r.sim) w t.has_id o in
            let (open_, f) = see_full fl conn r _ t.keyed enter in
            subst (Tells fl conn r') (sym (after-two fl conn c _ _ w ∙ if_true _ _ e))
              (open_, λ b. f)
        | inr e ↦
            subst (Tells fl conn r') (sym (after-two fl conn c _ _ w ∙ if_false _ _ e))
              (o, λ b. t.follows (bound-insert-some conn c pid r.conns e b))
      ]

  pub drop-Tracks :
      (pid : ℕ) (r : Room fl) (w0 : Watch fl)
      → InStep fl conn r w0
      → InStep fl conn (drop_conn fl pid r) w0
  unfolding drop_conn
  drop-Tracks pid r w0 t = elim (Option-cases (lookup pid r.conns)) [
    | inl e ↦ subst (λ o. InStep fl conn (drop_found fl o pid r) w0) (sym e) t
    | inr (old, e) ↦
        subst (λ o. InStep fl conn (drop_found fl o pid r) w0) (sym e)
          (Tracks-still fl conn r (drop_found fl (some old) pid r) _ refl refl (λ h. h)
            (λ h. inl (bound-insert-none conn pid r.conns h)) t)
  ]

  pub input-Tracks :
      (pid : ℕ) (i : Input fl) (r : Room fl) (w0 : Watch fl)
      → InStep fl conn r w0
      → InStep fl conn (on_input fl pid i r) w0
  unfolding on_input
  input-Tracks pid i r w0 t = elim (Bool-cases r.ended) [
    | inl e ↦ subst (λ r'. InStep fl conn r' w0) (sym (if_true _ _ e)) t
    | inr e ↦ subst (λ r'. InStep fl conn r' w0) (sym (if_false _ _ e)) (taken e)
  ]
    where
      taken : r.ended ≡ false → InStep fl conn (record r { sim = apply_input fl pid i r.sim }) w0
      taken e = record {
        has_id = t.has_id;
        keyed = λ k. subst (Named k) (sym (apply_input-place fl pid k i r.sim).0) (t.keyed k);
        follows = λ b k. t.follows b k ∙ sym (apply_input-place fl pid k i r.sim).1;
        returned = λ o. absurd (differ e (t.returned o).0);
      }
