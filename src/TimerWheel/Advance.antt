-- ===== src/TimerWheel/Advance.antt =====
-- timer/TimerWheel.cc: `advance`, with callbacks that use the wheel.
use my_game_server.Base.{
  ℕ, zero, suc, ◌+◌, ◌/◌, ◌%◌, ◌<◌, [], some, ◌≡◌, refl, sym, subst, ◌∙◌, arith, true, false,
}
use my_game_server.Base.Map.{lookup}
use my_game_server.Base.IdSet.{mem}
use my_game_server.TimerWheel.{
  Node, Wheel, slot, slots, cascade, fire_slot, tick, ticks, advance, tick_ms,
}
use my_game_server.TimerWheel.Inv.{Inv}
use my_game_server.TimerWheel.Client.{Uses}
use my_game_server.TimerWheel.Cascade.{cascade-Inv}
use my_game_server.TimerWheel.Ticks.{emptied, emptied-Inv, IsReady, IsReady-alive, fire_all-Inv}

-- The wheel after the first half of a tick.
abbrev pub cascaded : {C : Type 0} → Wheel C → Wheel C
cascaded w = cascade (record w { now_tick = w.now_tick + 1 })

pub cascaded-Inv :
    {C : Type 0} (w : Wheel C)
    → IsReady w
    → Inv (cascaded w) (cascaded w).now_tick [] × ((cascaded w).now_tick ≡ w.now_tick + 1)
cascaded-Inv w v =
    let (v', (same, _, _)) = cascade-Inv w (w.now_tick + 1) refl v in
    (subst (λ t. Inv (cascaded w) t []) (sym same) v', same)

module _ {C : Type 0} {E : Type 0} (run : C → Wheel C × E → Wheel C × E) (Ok : ℕ → Type 0)
    (uses : (c : C) (w : Wheel C) (e : E) → Uses Ok w (run c (w, e)).0) where
  pub tick-IsReady :
      (w : Wheel C) (e : E)
      → IsReady w
      → IsReady (tick run (w, e)).0 × ((tick run (w, e)).0.now_tick ≡ w.now_tick + 1)
  unfolding tick fire_slot
  tick-IsReady w e v =
      let (v1, now) = cascaded-Inv w v in
      let c = cascaded w in
      let (v2, same) =
        fire_all-Inv run Ok uses (slot c.l0 (c.now_tick % slots)) (emptied c v1) e (c.now_tick + 1)
          refl (emptied-Inv c v1) in
      (subst (λ t. Inv (tick run (w, e)).0 (t + 1) []) (sym same) v2, same ∙ now)

  pub ticks-IsReady :
      (m : ℕ) (w : Wheel C) (e : E)
      → IsReady w
      → IsReady (ticks run m (w, e)).0 × ((ticks run m (w, e)).0.now_tick ≡ w.now_tick + m)
  unfolding ticks
  ticks-IsReady zero w e v = (v, omega arith)
  ticks-IsReady (suc m) w e v =
      let (v1, now) = tick-IsReady w e v in
      let s = tick run (w, e) in
      let (v2, then') = ticks-IsReady m s.0 s.1 v1 in (v2, omega (arith, now, then'))

  -- Whatever the callbacks add and cancel, `advance` leaves a wheel in order in order, and its clock has
  -- moved by the whole ticks of the time that has passed since the last tick. So no timer is overdue:
  -- every timer that can still be canceled has a later expiry.
  pub advance-IsReady :
      (ms : ℕ) (w : Wheel C) (e : E)
      → IsReady w
      → let w' = (advance run ms (w, e)).0 in
        IsReady w'
        × (w'.now_tick ≡ w.now_tick + (w.remainder_ms + ms) / tick_ms)
        × ((id : ℕ)
            → mem id w'.alive ≡ true
            → (n : Node C) × (lookup id w'.nodes ≡ some n)
              × (n.canceled ≡ false)
              × (w'.now_tick < n.expiry_tick))
  unfolding advance
  advance-IsReady ms w e v =
      let total = w.remainder_ms + ms in
      let (v', now) =
        ticks-IsReady (total / tick_ms) (record w { remainder_ms = total % tick_ms }) e
          (record {
            sized0 = v.sized0;
            sized1 = v.sized1;
            fresh = v.fresh;
            near = v.near;
            far = v.far;
            kept = v.kept;
          }) in
      (v', now, λ id m. IsReady-alive _ id v' m)
