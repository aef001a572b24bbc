-- ===== src/Room/After.antt =====
-- game/Room.cc: a room that has ended is over.
use my_game_server.Base.{
  ℕ, if◌then◌else◌, Bool, true, false, List, [], ◌∷◌, Option, none, some, ◌≡◌, refl, ◌∙◌,
}
use my_game_server.Base.Map.{lookup}
use my_game_server.BattleSim.Defs.{Floats}
use my_game_server.Room.{
  start, on_input, rebind_found, rebind, drop_found, drop_conn, force_end, stop, reset_ticker,
  on_tick, Op, starts, stops, resets, ticks, inputs, rebinds, drops, forces, do_op, do_ops,
}
use my_game_server.Room.Defs.{Room, emit}

module _ (fl : Floats) where
  -- `r'` is as far as `r`, and has ended.
  abbrev pub Over : Room fl → Room fl → Type 0
  Over r r' = (r'.ended ≡ true) × (r'.sim ≡ r.sim) × (r'.tick ≡ r.tick)

  unless_ended-Over :
      (r r' : Room fl) (b : Bool) → r.ended ≡ b → b ≡ true → Over r (if b then r else r')
  unless_ended-Over r r' true e f = (e, refl, refl)
  unless_ended-Over r r' false e f = cc

  rebind-Over :
      (o : Option (Option ℕ)) (pid conn : ℕ) (r : Room fl)
      → r.ended ≡ true
      → Over r (rebind_found fl o pid conn r)
  unfolding emit
  rebind-Over none pid conn r e = (e, refl, refl)
  rebind-Over (some old) pid conn r e = (e, refl, refl)

  drop-Over :
      (o : Option (Option ℕ)) (pid : ℕ) (r : Room fl)
      → r.ended ≡ true
      → Over r (drop_found fl o pid r)
  drop-Over none pid r e = (e, refl, refl)
  drop-Over (some old) pid r e = (e, refl, refl)

  do_op-Over : (o : Op fl) (r : Room fl) → r.ended ≡ true → Over r (do_op fl o r)
  unfolding do_op start on_input rebind drop_conn force_end stop reset_ticker on_tick emit
  do_op-Over starts r e = (e, refl, refl)
  do_op-Over stops r e = (refl, refl, refl)
  do_op-Over resets r e = (e, refl, refl)
  do_op-Over ticks r e = either r.ticker
    where
      either : (b : Bool) → Over r (if b then on_tick fl r else r)
      either true = unless_ended-Over r _ r.ended refl e
      either false = (e, refl, refl)
  do_op-Over (inputs pid i) r e = unless_ended-Over r _ r.ended refl e
  do_op-Over (rebinds pid conn) r e = rebind-Over (lookup pid r.conns) pid conn r e
  do_op-Over (drops pid) r e = drop-Over (lookup pid r.conns) pid r e
  do_op-Over (forces winner) r e = unless_ended-Over r _ r.ended refl e

  -- Once a room has ended it stays so: no task moves its battle on, whatever comes in late.
  pub do_ops-Over : (os : List (Op fl)) (r : Room fl) → r.ended ≡ true → Over r (do_ops fl os r)
  unfolding do_ops
  do_ops-Over [] r e = (e, refl, refl)
  do_ops-Over (o ∷ os) r e =
      let (e1, s1, t1) = do_op-Over o r e in
      let (e2, s2, t2) = do_ops-Over os (do_op fl o r) e1 in (e2, s2 ∙ s1, t2 ∙ t1)
