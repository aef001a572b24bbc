-- ===== src/Bot/Ticks.antt =====
-- examples/bot_client.cc, game/Room.cc and game/BattleSim.cc: a tick and a client that is in step. The
-- incremental snapshot names every player who changed.
use my_game_server.Base.{
  ℕ, ◌+◌, Bool, true, false, ◌&&◌, List, [], ◌∷◌, none, map, ◌≡◌, ◌≢◌, subst, refl, Bool-cases, inl,
  inr, ◌⊎◌, ◌∙◌, sym, if_true, if_false,
}
use my_game_server.Base.Map.{lookup}
use my_game_server.Base.IdSet.{mem, mem-nil}
use my_game_server.BattleSim
use my_game_server.BattleSim.Defs.{Floats}
use my_game_server.BattleSim.Changes.{id_of, Reports, step-Reports}
use my_game_server.BattleSim.{
  player_ids, projectile_ids, apply_input, take_removed_projectile_ids, winner_or_zero, add_player,
}
use my_game_server.Room.{is_nil, broadcast, send_changes, play, tick_ms}
use my_game_server.Room.Defs.{
  Snapshot, snapshot, Room, emit, fill_projectile_state, no_projectile_state,
}
use my_game_server.Bot.{merge_snapshot, merge_all}
use my_game_server.Bot.Track.{Watch, see, sees}
use my_game_server.Bot.Follow.{
  sent_to, bound, after, after-unbound, after-bound, Follows, Named, IsKeyed, merge-Agrees, Agrees,
  filled,
}
use my_game_server.Bot.Replica.{Tracks, InStep, Tells, Tells-Tracks, emit-Tracks, differ}

and_left : (a b : Bool) → (a && b) ≡ true → a ≡ true
and_left true b h = refl
and_left false b h = h

module _ (fl : Floats) (conn : ℕ) where
  is_nil-mem : (k : ℕ) (ids : List ℕ) → is_nil fl ids ≡ true → mem k ids ≡ false
  unfolding mem
  is_nil-mem k [] h = refl
  is_nil-mem k (i ∷ is) h = absurd (cc)

  -- The world agrees with the room about the players that are not in the list.
  abbrev Others : List ℕ → Room fl → Snapshot fl → Type 0
  Others ids r world = (k : ℕ) → mem k ids ≡ false → Agrees fl k r.sim world

  abbrev Present : List ℕ → Room fl → Type 0
  Present ids r = (k : ℕ) → mem k ids ≡ true → id_of fl (lookup k r.sim.players) ≢ none

  abbrev Live : Room fl → Watch fl → Type 0
  Live r w = (w.over ≡ false) × Follows fl r.sim w.world

  -- An incremental snapshot brings the world up to date.
  see_changes :
      (s : Snapshot fl) (changed : List ℕ) (r : Room fl) (w : Watch fl)
      → s.full ≡ false
      → s.players ≡ map (filled fl r.sim) changed
      → IsKeyed fl r.sim
      → Present changed r
      → w.over ≡ false
      → Others changed r w.world
      → Live r (see fl (snapshot s) w)
  unfolding merge_snapshot
  see_changes s changed r w partial named n there o others =
      subst (Live r) (sym (if_false _ _ o))
        (o, λ k. subst (λ v. Agrees fl k r.sim v) (sym (if_false _ _ partial)) (agrees k))
    where
      agrees :
          (k : ℕ)
          → Agrees fl k r.sim (record w.world { players = merge_all fl s.players w.world.players })
      agrees k =
          subst
            (λ ps. Agrees fl k r.sim (record w.world { players = merge_all fl ps w.world.players }))
            (sym named) (merge-Agrees fl r.sim changed w.world.players n there k (others k))

  send_changes-Tells :
      (changed removed : List ℕ) (r : Room fl) (w : Watch fl)
      → IsKeyed fl r.sim
      → Present changed r
      → w.over ≡ false
      → (bound conn r.conns ≡ true → Others changed r w.world)
      → Tells fl conn r (after fl conn (send_changes fl changed removed r) w)
  unfolding send_changes after sent_to sees
  send_changes-Tells changed removed r w n there o others =
      by_need (
        Bool-cases
          (is_nil fl changed && (is_nil fl (projectile_ids fl r.sim) && is_nil fl removed)))
    where
      s : Snapshot fl
      s = record {
        tick = r.tick;
        full = false;
        players = map (filled fl r.sim) changed;
        projectiles =
            map (λ id. fill_projectile_state fl r.sim id (no_projectile_state fl))
              (projectile_ids fl r.sim);
        removed_projectile_ids = removed;
      }

      first :
          (w : Watch fl)
          → w.over ≡ false
          → Others changed r w.world
          → Live r (see fl (snapshot s) w)
      first w o h = see_changes s changed r w refl refl n there o h

      sent :
          (b : Bool)
          → bound conn r.conns ≡ b
          → Tells fl conn r (after fl conn (broadcast fl (snapshot s) r.conns) w)
      sent true b =
          let (o', f) =
            after-bound fl (Live r) conn (snapshot s) (λ w q. first w q.0 (λ k h. q.1 k)) r.conns w
              b (first w o (others b)) in
          (o', λ h. f)
      sent false b =
          subst (Tells fl conn r) (sym (after-unbound fl conn (snapshot s) r.conns w b))
            (o, λ h. absurd (differ b h))

      quiet : is_nil fl changed ≡ true → Tells fl conn r (after fl conn [] w)
      quiet e = (o, λ b k. others b k (is_nil-mem k changed e))

      by_need :
          ((is_nil fl changed && (is_nil fl (projectile_ids fl r.sim) && is_nil fl removed)) ≡ true)
            ⊎ ((is_nil fl changed && (is_nil fl (projectile_ids fl r.sim) && is_nil fl removed))
                ≡ false)
          → Tells fl conn r (after fl conn (send_changes fl changed removed r) w)
      by_need (inl e) =
          subst (λ es. Tells fl conn r (after fl conn es w)) (sym (if_true _ _ e))
            (quiet (and_left _ _ e))
      by_need (inr e) =
          subst (λ es. Tells fl conn r (after fl conn es w)) (sym (if_false _ _ e)) (sent _ refl)

  pub play-Tracks :
      (r : Room fl) (w0 : Watch fl)
      → r.ended ≡ false
      → InStep fl conn r w0
      → InStep fl conn (play fl r) w0
  unfolding play emit take_removed_projectile_ids
  play-Tracks r w0 e t =
      emit-Tracks fl conn r (play fl r) _ w0
        (λ w t o.
          Tells-Tracks fl conn (play fl r) _ t.has_id (named t)
            (send_changes-Tells _ _ r' w (named t) there o (others w t)))
        (λ w t o. absurd (differ e (t.returned o).0)) t
    where
      r' : Room fl
      r' = record r { tick = r.tick + 1; sim = (play fl r).sim }

      told :
          (k : ℕ)
          → Reports fl k r.sim.players []
              (play fl r).sim.players
              (BattleSim.step fl tick_ms r.sim).1
      told k = step-Reports fl k tick_ms r.sim

      named : {w : Watch fl} → Tracks fl conn r w → IsKeyed fl (play fl r).sim
      named t k = subst (Named k) (sym (told k).same_id) (t.keyed k)

      there : Present (BattleSim.step fl tick_ms r.sim).1 (play fl r)
      there k m z = differ ((told k).known (sym (told k).same_id ∙ z) (mem-nil k)) m

      others :
          (w : Watch fl)
          → Tracks fl conn r w
          → bound conn r.conns ≡ true
          → Others (BattleSim.step fl tick_ms r.sim).1 (play fl r) w.world
      others w t b k m = t.follows b k ∙ sym ((told k).told m)
