-- ===== src/Room.antt =====
-- game/Room.h and game/Room.cc: a room, which the tasks of its loop call one after the other.
pub mod Defs
pub mod Ends
pub mod After
pub mod Stuck
mod Tests
use my_game_server.Base.{
  ℕ, suc, ◌+◌, ◌%◌, ◌==◌, if◌then◌else◌, Bool, true, false, not, ◌&&◌, ◌||◌, List, [], ◌∷◌, ◌++◌,
  Option, none, some, map,
}
use my_game_server.Base.Map
use my_game_server.Base.Map.{Map}
use my_game_server.BattleSim
use my_game_server.BattleSim.{
  add_player, apply_input, winner_or_zero, player_ids, projectile_ids, take_removed_projectile_ids,
}
use my_game_server.BattleSim.Defs.{Floats, Input, Sim, new}
use Defs.{
  Snapshot, Message, enter_room, snapshot, battle_end, Effect, to, sets_ticker, queues_stop, on_end,
  Room, no_player_state, no_projectile_state, fill_state, fill_projectile_state, emit,
}

abbrev pub tick_ms : ℕ
tick_ms = 50

module _ (fl : Floats) where
  open fl use {Float, of_int}

  -- The loop of the constructor: the players, from the seat `i` on.
  unfoldable pub seat : ℕ → List (ℕ × Option ℕ) → Room fl → Room fl
  seat i [] r = r
  seat i ((pid, conn) ∷ ps) r = seat (i + 1) ps (record r {
    sim = add_player fl pid (of_int (if i % 2 == 0 then 30 else 70)) (of_int 50) r.sim;
    conns = Map.insert pid conn r.conns;
  })

  -- The constructor.
  unfoldable pub make : ℕ → List (ℕ × Option ℕ) → Room fl
  unfolding seat
  make id ps = seat 0 ps (record {
    id = id;
    sim = new fl;
    conns = [];
    ticker = false;
    tick = 0;
    ended = false;
    out = [];
  })

  -- `broadcast`: a player without a connection gets nothing.
  unfoldable pub broadcast : Message fl → Map (Option ℕ) → List (Effect fl)
  broadcast m [] = []
  broadcast m ((pid, none) ∷ cs) = broadcast m cs
  broadcast m ((pid, some conn) ∷ cs) = to conn m ∷ broadcast m cs

  -- What a full snapshot holds.
  unfoldable pub full_snapshot : Room fl → Snapshot fl
  full_snapshot r = record {
    tick = r.tick;
    full = true;
    players = map (λ id. fill_state fl r.sim id (no_player_state fl)) (player_ids fl r.sim);
    projectiles =
        map (λ id. fill_projectile_state fl r.sim id (no_projectile_state fl))
          (projectile_ids fl r.sim);
    removed_projectile_ids = [];
  }

  -- `sendFullSnapshot`, for each of the connections.
  unfoldable pub send_full : Room fl → Map (Option ℕ) → List (Effect fl)
  unfolding broadcast full_snapshot
  send_full r cs = broadcast (snapshot (full_snapshot r)) cs

  unfoldable pub start : Room fl → Room fl
  unfolding send_full
  start r =
      record (emit fl
        (broadcast (enter_room r.id (player_ids fl r.sim)) r.conns
          ++ (send_full r r.conns ++ (sets_ticker ∷ [])))
        r) { ticker = true }

  unfoldable pub on_input : ℕ → Input fl → Room fl → Room fl
  on_input pid i r = if r.ended then r else record r { sim = apply_input fl pid i r.sim }

  abbrev pub rebind_found : Option (Option ℕ) → ℕ → ℕ → Room fl → Room fl
  rebind_found none pid conn r = r
  rebind_found (some old) pid conn r =
      emit fl
        (to conn (enter_room r.id (player_ids fl r.sim))
          ∷ (to conn (snapshot (full_snapshot r)) ∷ []))
        (record r { conns = Map.insert pid (some conn) r.conns })

  unfoldable pub rebind : ℕ → ℕ → Room fl → Room fl
  unfolding full_snapshot
  rebind pid conn r = rebind_found (Map.lookup pid r.conns) pid conn r

  abbrev pub drop_found : Option (Option ℕ) → ℕ → Room fl → Room fl
  drop_found none pid r = r
  drop_found (some old) pid r = record r { conns = Map.insert pid none r.conns }

  unfoldable pub drop_conn : ℕ → Room fl → Room fl
  drop_conn pid r = drop_found (Map.lookup pid r.conns) pid r

  unfoldable pub end_battle : ℕ → Room fl → Room fl
  unfolding broadcast
  end_battle winner r =
      record (emit fl
        (broadcast (battle_end winner) r.conns ++ (queues_stop ∷ (on_end r.id winner ∷ []))) r) {
          ended = true;
        }

  unfoldable pub force_end : ℕ → Room fl → Room fl
  unfolding end_battle
  force_end winner r = if r.ended then r else end_battle winner r

  unfoldable pub stop : Room fl → Room fl
  stop r = record r { ended = true; ticker = false }

  -- The task that `endBattle` queues.
  unfoldable pub reset_ticker : Room fl → Room fl
  reset_ticker r = record r { ticker = false }

  abbrev pub is_nil : List ℕ → Bool
  is_nil [] = true
  is_nil (x ∷ xs) = false

  -- The snapshot of a tick, if something changed; `r` is the room after the step.
  unfoldable pub send_changes : List ℕ → List ℕ → Room fl → List (Effect fl)
  unfolding broadcast
  send_changes changed removed r =
      let projectiles = projectile_ids fl r.sim in
      if is_nil changed && (is_nil projectiles && is_nil removed)
      then []
      else broadcast
          (snapshot (record {
            tick = r.tick;
            full = false;
            players = map (λ id. fill_state fl r.sim id (no_player_state fl)) changed;
            projectiles =
                map (λ id. fill_projectile_state fl r.sim id (no_projectile_state fl)) projectiles;
            removed_projectile_ids = removed;
          }))
          r.conns

  -- `onTick` up to the test for a winner.
  unfoldable pub play : Room fl → Room fl
  unfolding send_changes
  play r =
      let (s, changed) = BattleSim.step fl tick_ms r.sim in
      let (removed, s') = take_removed_projectile_ids fl s in
      let r' : Room fl = record r { tick = r.tick + 1; sim = s' } in
      emit fl (send_changes changed removed r') r'

  unfoldable pub judge : Room fl → Room fl
  unfolding end_battle
  judge r = let winner = winner_or_zero fl r.sim in if winner == 0 then r else end_battle winner r

  unfoldable pub on_tick : Room fl → Room fl
  unfolding play judge
  on_tick r = if r.ended then r else judge (play r)

  -- The tasks that run on the loop of a room. A tick only comes while the ticker is set.
  pub data Op : Type 0 where
    starts stops resets ticks : Op
    inputs : ℕ → Input fl → Op
    rebinds : ℕ → ℕ → Op
    drops forces : ℕ → Op

  unfoldable pub do_op : Op → Room fl → Room fl
  unfolding start on_input rebind drop_conn force_end stop reset_ticker on_tick
  do_op starts r = start r
  do_op stops r = stop r
  do_op resets r = reset_ticker r
  do_op ticks r = if r.ticker then on_tick r else r
  do_op (inputs pid i) r = on_input pid i r
  do_op (rebinds pid conn) r = rebind pid conn r
  do_op (drops pid) r = drop_conn pid r
  do_op (forces winner) r = force_end winner r

  unfoldable pub do_ops : List Op → Room fl → Room fl
  do_ops [] r = r
  do_ops (o ∷ os) r = do_ops os (do_op o r)
