-- ===== src/Room/Ends.antt =====
-- game/Room.cc: a battle is ended once, and nothing changes it afterwards.
use my_game_server.Base.{
  ℕ, suc, ◌+◌, ◌≤◌, ◌==◌, if◌then◌else◌, Bool, true, false, ◌&&◌, List, [], ◌∷◌, ◌++◌, Option, none,
  some, ◌≡◌, refl, sym, ◌∙◌, arith,
}
use my_game_server.Base.Map.{Map, lookup}
use my_game_server.BattleSim.{winner_or_zero, player_ids, projectile_ids, apply_input}
use my_game_server.BattleSim.Defs.{Floats, Input}
use my_game_server.Room.{
  is_nil, seat, make, broadcast, full_snapshot, send_full, start, on_input, rebind_found, rebind,
  drop_found, drop_conn, end_battle, force_end, stop, reset_ticker, send_changes, play, judge,
  on_tick, Op, starts, stops, resets, ticks, inputs, rebinds, drops, forces, do_op, do_ops,
}
use my_game_server.Room.Defs.{
  Message, enter_room, snapshot, battle_end, Effect, to, sets_ticker, queues_stop, on_end, Room,
  emit,
}

module _ (fl : Floats) where
  -- How often `onEnd_` was called.
  unfoldable pub ends : List (Effect fl) → ℕ
  ends [] = 0
  ends (to conn m ∷ es) = ends es
  ends (sets_ticker ∷ es) = ends es
  ends (queues_stop ∷ es) = ends es
  ends (on_end id winner ∷ es) = suc (ends es)

  ends-append : (es fs : List (Effect fl)) → ends (es ++ fs) ≡ ends es + ends fs
  unfolding ends
  ends-append [] fs = omega arith
  ends-append (to conn m ∷ es) fs = ends-append es fs
  ends-append (sets_ticker ∷ es) fs = ends-append es fs
  ends-append (queues_stop ∷ es) fs = ends-append es fs
  ends-append (on_end id winner ∷ es) fs = omega (arith, ends-append es fs)

  ends-broadcast : (m : Message fl) (cs : Map (Option ℕ)) → ends (broadcast fl m cs) ≡ 0
  unfolding ends broadcast
  ends-broadcast m [] = refl
  ends-broadcast m ((pid, none) ∷ cs) = ends-broadcast m cs
  ends-broadcast m ((pid, some conn) ∷ cs) = ends-broadcast m cs

  -- One call at most, and none before the end.
  pub record EndsOnce (r : Room fl) : Type 0 where
    pub at_most : ends r.out ≤ 1
    pub not_yet : r.ended ≡ false → ends r.out ≡ 0

  end_battle-EndsOnce :
      (winner : ℕ) (r : Room fl) → ends r.out ≡ 0 → EndsOnce (end_battle fl winner r)
  unfolding end_battle emit ends
  end_battle-EndsOnce winner r e = record {
    at_most = omega (
      arith,
      ends-append r.out
          (broadcast fl (battle_end winner) r.conns ++ (queues_stop ∷ (on_end r.id winner ∷ []))),
      ends-append (broadcast fl (battle_end winner) r.conns)
          (queues_stop ∷ (on_end r.id winner ∷ [])),
      ends-broadcast (battle_end winner) r.conns,
      e,
    );
    not_yet = λ f. cc;
  }

  -- An operation that neither ends the battle nor calls back.
  abbrev pub Quiet : Room fl → Room fl → Type 0
  Quiet r r' = (ends r'.out ≡ ends r.out) × (r'.ended ≡ r.ended)

  Quiet-EndsOnce : (r r' : Room fl) → Quiet r r' → EndsOnce r → EndsOnce r'
  Quiet-EndsOnce r r' (e, f) v = record {
    at_most = omega (arith, e, v.at_most);
    not_yet = λ h. e ∙ v.not_yet (sym f ∙ h);
  }

  pub start-Quiet : (r : Room fl) → Quiet r (start fl r)
  unfolding start emit send_full ends
  start-Quiet r =
      let enter = broadcast fl (enter_room r.id (player_ids fl r.sim)) r.conns in
      let full = broadcast fl (snapshot (full_snapshot fl r)) r.conns in
      (
        omega (
          arith,
          ends-append r.out (enter ++ (full ++ (sets_ticker ∷ []))),
          ends-append enter (full ++ (sets_ticker ∷ [])),
          ends-append full (sets_ticker ∷ []),
          ends-broadcast (enter_room r.id (player_ids fl r.sim)) r.conns,
          ends-broadcast (snapshot (full_snapshot fl r)) r.conns,
        ),
        refl,
      )

  pub rebind-Quiet :
      (o : Option (Option ℕ)) (pid conn : ℕ) (r : Room fl) → Quiet r (rebind_found fl o pid conn r)
  unfolding emit ends
  rebind-Quiet none pid conn r = (refl, refl)
  rebind-Quiet (some old) pid conn r = (
    omega (
      arith,
      ends-append r.out (
          to conn (enter_room r.id (player_ids fl r.sim))
          ∷ (to conn (snapshot (full_snapshot fl r)) ∷ [])),
    ),
    refl,
  )

  pub drop-Quiet : (o : Option (Option ℕ)) (pid : ℕ) (r : Room fl) → Quiet r (drop_found fl o pid r)
  drop-Quiet none pid r = (refl, refl)
  drop-Quiet (some old) pid r = (refl, refl)

  pub input-Quiet : (pid : ℕ) (i : Input fl) (r : Room fl) → Quiet r (on_input fl pid i r)
  unfolding on_input
  input-Quiet pid i r = either r.ended
    where
      either : (b : Bool) → Quiet r (if b then r else record r { sim = apply_input fl pid i r.sim })
      either true = (refl, refl)
      either false = (refl, refl)

  ends-send_changes :
      (changed removed : List ℕ) (r : Room fl) → ends (send_changes fl changed removed r) ≡ 0
  unfolding send_changes ends
  ends-send_changes changed removed r =
      either (is_nil fl changed && (is_nil fl (projectile_ids fl r.sim) && is_nil fl removed)) _
    where
      either : (b : Bool) (m : Message fl) → ends (if b then [] else broadcast fl m r.conns) ≡ 0
      either true m = refl
      either false m = ends-broadcast m r.conns

  pub play-Quiet : (r : Room fl) → Quiet r (play fl r)
  unfolding play emit
  play-Quiet r = (ends-append r.out _ ∙ omega (arith, ends-send_changes _ _ _), refl)

  judge-EndsOnce : (r : Room fl) → ends r.out ≡ 0 → r.ended ≡ false → EndsOnce (judge fl r)
  unfolding judge
  judge-EndsOnce r e f = either (winner_or_zero fl r.sim == 0)
    where
      either : (b : Bool) → EndsOnce (if b then r else end_battle fl (winner_or_zero fl r.sim) r)
      either true = record { at_most = omega (arith, e); not_yet = λ h. e }
      either false = end_battle-EndsOnce (winner_or_zero fl r.sim) r e

  unless_ended-EndsOnce :
      (r r' : Room fl)
      → EndsOnce r
      → (r.ended ≡ false → EndsOnce r')
      → (b : Bool) → r.ended ≡ b
      → EndsOnce (if b then r else r')
  unless_ended-EndsOnce r r' v k true e = v
  unless_ended-EndsOnce r r' v k false e = k e

  on_tick-EndsOnce : (r : Room fl) → EndsOnce r → EndsOnce (on_tick fl r)
  unfolding on_tick
  on_tick-EndsOnce r v =
      unless_ended-EndsOnce r (judge fl (play fl r)) v
        (λ f. let (e, g) = play-Quiet r in judge-EndsOnce (play fl r) (e ∙ v.not_yet f) (g ∙ f))
        r.ended refl

  do_op-EndsOnce : (o : Op fl) (r : Room fl) → EndsOnce r → EndsOnce (do_op fl o r)
  unfolding do_op rebind drop_conn force_end stop reset_ticker
  do_op-EndsOnce starts r v = Quiet-EndsOnce r _ (start-Quiet r) v
  do_op-EndsOnce stops r v = record { at_most = v.at_most; not_yet = λ f. cc }
  do_op-EndsOnce resets r v = record { at_most = v.at_most; not_yet = v.not_yet }
  do_op-EndsOnce ticks r v = either r.ticker
    where
      either : (b : Bool) → EndsOnce (if b then on_tick fl r else r)
      either true = on_tick-EndsOnce r v
      either false = v
  do_op-EndsOnce (inputs pid i) r v = Quiet-EndsOnce r _ (input-Quiet pid i r) v
  do_op-EndsOnce (rebinds pid conn) r v =
      Quiet-EndsOnce r _ (rebind-Quiet (lookup pid r.conns) pid conn r) v
  do_op-EndsOnce (drops pid) r v = Quiet-EndsOnce r _ (drop-Quiet (lookup pid r.conns) pid r) v
  do_op-EndsOnce (forces winner) r v =
      unless_ended-EndsOnce r (end_battle fl winner r) v
        (λ f. end_battle-EndsOnce winner r (v.not_yet f)) r.ended refl

  do_ops-EndsOnce : (os : List (Op fl)) (r : Room fl) → EndsOnce r → EndsOnce (do_ops fl os r)
  unfolding do_ops
  do_ops-EndsOnce [] r v = v
  do_ops-EndsOnce (o ∷ os) r v = do_ops-EndsOnce os (do_op fl o r) (do_op-EndsOnce o r v)

  seat-EndsOnce :
      (i : ℕ) (ps : List (ℕ × Option ℕ)) (r : Room fl) → EndsOnce r → EndsOnce (seat fl i ps r)
  unfolding seat
  seat-EndsOnce i [] r v = v
  seat-EndsOnce i ((pid, conn) ∷ ps) r v =
      seat-EndsOnce (i + 1) ps _ (record { at_most = v.at_most; not_yet = v.not_yet })

  -- Whatever tasks run on the loop of a room, in whatever order: the lobby is called back at most once
  -- about the end of the battle, and not before the room has ended.
  pub make-EndsOnce :
      (id : ℕ) (ps : List (ℕ × Option ℕ)) (os : List (Op fl))
      → EndsOnce (do_ops fl os (make fl id ps))
  unfolding make ends
  make-EndsOnce id ps os =
      do_ops-EndsOnce os _
        (seat-EndsOnce 0 ps _ (record { at_most = omega arith; not_yet = λ f. refl }))
