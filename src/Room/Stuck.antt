-- ===== src/Room/Stuck.antt =====
-- game/Room.cc: a room in which both players died in the same tick.
use my_game_server.Base.{
  ℕ, ◌==◌, if◌then◌else◌, Bool, true, false, List, [], ◌∷◌, Option, none, some, ◌≡◌, refl, sym, ap,
  subst, ◌∙◌, All,
}
use my_game_server.Base.Map.{lookup}
use my_game_server.BattleSim.{winner_or_zero, apply_input, step, take_removed_projectile_ids}
use my_game_server.BattleSim.Defs.{Floats, Input}
use my_game_server.BattleSim.Health.{health}
use my_game_server.BattleSim.Stalemate.{AllDead, stalemate, health-step, health-apply_input}
use my_game_server.Room.{
  start, on_input, rebind_found, rebind, drop_found, drop_conn, end_battle, reset_ticker, play,
  judge, on_tick, Op, starts, stops, resets, ticks, inputs, rebinds, drops, forces, do_op, do_ops,
  tick_ms,
}
use my_game_server.Room.Defs.{Room, emit}
use my_game_server.Room.Ends.{
  ends, Quiet, start-Quiet, rebind-Quiet, drop-Quiet, input-Quiet, play-Quiet,
}

module _ (fl : Floats) where
  -- All tasks but the two that end a room from outside.
  abbrev pub is_ordinary : Op fl → Bool
  is_ordinary starts = true
  is_ordinary stops = false
  is_ordinary resets = true
  is_ordinary ticks = true
  is_ordinary (inputs pid i) = true
  is_ordinary (rebinds pid conn) = true
  is_ordinary (drops pid) = true
  is_ordinary (forces winner) = false

  -- Nobody is alive, and the battle goes on.
  pub record IsStuck (r : Room fl) : Type 0 where
    pub dead : AllDead fl (health fl r.sim.players)
    pub goes_on : r.ended ≡ false
    pub silent : ends fl r.out ≡ 0

  Quiet-IsStuck :
      (r r' : Room fl)
      → Quiet fl r r'
      → health fl r'.sim.players ≡ health fl r.sim.players
      → IsStuck r
      → IsStuck r'
  Quiet-IsStuck r r' (e, f) h v = record {
    dead = subst (AllDead fl) (sym h) v.dead;
    goes_on = f ∙ v.goes_on;
    silent = e ∙ v.silent;
  }

  rebind_same :
      (o : Option (Option ℕ)) (pid conn : ℕ) (r : Room fl)
      → (rebind_found fl o pid conn r).sim ≡ r.sim
  unfolding emit
  rebind_same none pid conn r = refl
  rebind_same (some old) pid conn r = refl

  drop_same : (o : Option (Option ℕ)) (pid : ℕ) (r : Room fl) → (drop_found fl o pid r).sim ≡ r.sim
  drop_same none pid r = refl
  drop_same (some old) pid r = refl

  health-on_input :
      (pid : ℕ) (i : Input fl) (r : Room fl)
      → health fl (on_input fl pid i r).sim.players ≡ health fl r.sim.players
  unfolding on_input
  health-on_input pid i r = either r.ended
    where
      either :
          (b : Bool)
          → health fl (if b then r else record r { sim = apply_input fl pid i r.sim }).sim.players
            ≡ health fl r.sim.players
      either true = refl
      either false = health-apply_input fl pid i r.sim

  play-IsStuck : (r : Room fl) → IsStuck r → IsStuck (play fl r)
  unfolding play emit take_removed_projectile_ids
  play-IsStuck r v =
      Quiet-IsStuck r (play fl r) (play-Quiet fl r) (health-step fl tick_ms r.sim v.dead) v

  judge-IsStuck : (r : Room fl) → IsStuck r → IsStuck (judge fl r)
  unfolding judge my_game_server.BattleSim.Stalemate.do_ops
  judge-IsStuck r v =
      subst (λ w. IsStuck (if w == 0 then r else end_battle fl w r))
        (sym (stalemate fl [] r.sim v.dead).1) v

  on_tick-IsStuck : (r : Room fl) → IsStuck r → IsStuck (on_tick fl r)
  unfolding on_tick
  on_tick-IsStuck r v = either r.ended
    where
      either : (b : Bool) → IsStuck (if b then r else judge fl (play fl r))
      either true = v
      either false = judge-IsStuck (play fl r) (play-IsStuck r v)

  do_op-IsStuck :
      (o : Op fl) (r : Room fl) → is_ordinary o ≡ true → IsStuck r → IsStuck (do_op fl o r)
  unfolding do_op rebind drop_conn reset_ticker start emit
  do_op-IsStuck starts r h v = Quiet-IsStuck r _ (start-Quiet fl r) refl v
  do_op-IsStuck stops r h v = cc
  do_op-IsStuck resets r h v = record { dead = v.dead; goes_on = v.goes_on; silent = v.silent }
  do_op-IsStuck ticks r h v = either r.ticker
    where
      either : (b : Bool) → IsStuck (if b then on_tick fl r else r)
      either true = on_tick-IsStuck r v
      either false = v
  do_op-IsStuck (inputs pid i) r h v =
      Quiet-IsStuck r _ (input-Quiet fl pid i r) (health-on_input pid i r) v
  do_op-IsStuck (rebinds pid conn) r h v =
      Quiet-IsStuck r _ (rebind-Quiet fl (lookup pid r.conns) pid conn r)
        (ap (λ s. health fl s.players) (rebind_same (lookup pid r.conns) pid conn r)) v
  do_op-IsStuck (drops pid) r h v =
      Quiet-IsStuck r _ (drop-Quiet fl (lookup pid r.conns) pid r)
        (ap (λ s. health fl s.players) (drop_same (lookup pid r.conns) pid r)) v
  do_op-IsStuck (forces winner) r h v = cc

  -- Once all players of a room have died without a winner, no tick, input, rebinding or lost connection
  -- ends the battle: the room has not ended, and the lobby is never called back. Only a forced end from
  -- the lobby, or the shutdown of the server, is left.
  pub do_ops-IsStuck :
      (os : List (Op fl)) (r : Room fl)
      → All (λ o. is_ordinary o ≡ true) os
      → IsStuck r
      → IsStuck (do_ops fl os r)
  unfolding do_ops
  do_ops-IsStuck [] r h v = v
  do_ops-IsStuck (o ∷ os) r h v = do_ops-IsStuck os (do_op fl o r) h.1 (do_op-IsStuck o r h.0 v)
