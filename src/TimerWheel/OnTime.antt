-- ===== src/TimerWheel/OnTime.antt =====
-- timer/TimerWheel.cc: a timer fires at its expiry, and not before.
use my_game_server.Base.{
  ℕ, zero, suc, ◌+◌, ◌/◌, ◌%◌, ◌≤◌, ◌<◌, ◌==◌, true, false, [], ◌≡◌, ◌≢◌, refl, sym, ap, subst, ◌∙◌,
  arith, inl, inr, Bool-cases, ==→eq, min,
}
use my_game_server.Base.Map.{lookup}
use my_game_server.Base.IdSet.{mem, mem-nil}
use my_game_server.TimerWheel.{Node, Wheel, slot, slots, add, ticks_of, fire_slot, tick, ticks}
use my_game_server.TimerWheel.Inv.{Inv, Kept}
use my_game_server.TimerWheel.Calls.{Holds, add-Inv, add-Holds, now_tick-add}
use my_game_server.TimerWheel.Client.{Uses}
use my_game_server.TimerWheel.Cascade.{cascade-Inv}
use my_game_server.TimerWheel.Ticks.{emptied, emptied-Inv, IsReady}
use my_game_server.TimerWheel.FireAll.{fire_all-Holds, fire_all_runs}
use my_game_server.TimerWheel.Advance.{cascaded, cascaded-Inv, tick-IsReady}

module _ {C : Type 0} where
  cascaded-Holds :
      (w : Wheel C) (k : ℕ) (n : Node C) → IsReady w → Holds w k n → Holds (cascaded w) k n
  cascaded-Holds w k n v (e, m) =
      let (_, (_, nodes, alive)) = cascade-Inv w (w.now_tick + 1) refl v in
      (ap (lookup k) nodes ∙ e, ap (mem k) alive ∙ m)

  -- The slot that fires holds a timer exactly if the timer is due.
  due_now :
      (w : Wheel C) (k : ℕ) (n : Node C)
      → Inv w w.now_tick []
      → Holds w k n
      → mem k (slot w.l0 (w.now_tick % slots)) ≡ (n.expiry_tick == w.now_tick)
  due_now w k n v (e, m) = elim (Bool-cases (mem k (slot w.l0 (w.now_tick % slots)))) [
    | inl here ↦
        let (x, f, lo, hi, at) = v.near (w.now_tick % slots) k here in
        let g : x.expiry_tick ≡ n.expiry_tick = cc (e, f) in ground (arith, here)
    | inr gone ↦ rw gone (not_due gone (v.kept k m))
  ]
    where
      not_due :
          mem k (slot w.l0 (w.now_tick % slots)) ≡ false
          → Kept w [] k
          → false ≡ (n.expiry_tick == w.now_tick)
      not_due gone (x, f, c, inl a) =
          let g : x.expiry_tick ≡ n.expiry_tick = cc (e, f) in
          elim (Bool-cases (n.expiry_tick == w.now_tick)) [
            | inl due ↦
                let h : x.expiry_tick ≡ w.now_tick = g ∙ ==→eq n.expiry_tick w.now_tick due in
                cc (gone, subst (λ i. mem k (slot w.l0 (i % slots)) ≡ true) h a)
            | inr other ↦ sym other
          ]
      not_due gone (x, f, c, inr (inl b)) =
          let (y, f', lo, hi, at) = v.far (x.expiry_tick / slots % slots) k b in
          let g : y.expiry_tick ≡ n.expiry_tick = cc (e, f') in ground (arith, lo)
      not_due gone (x, f, c, inr (inr p)) = absurd (cc (p, mem-nil k))

module _ {C : Type 0} {E : Type 0} (run : C → Wheel C × E → Wheel C × E) (k : ℕ)
    (uses : (c : C) (w : Wheel C) (e : E) → Uses (λ id. id ≢ k) w (run c (w, e)).0)
    (n : Node C) where
  -- Before its expiry a timer stays as it is.
  tick_early :
      (w : Wheel C) (e : E)
      → IsReady w
      → Holds w k n
      → w.now_tick + 1 < n.expiry_tick
      → Holds (tick run (w, e)).0 k n
  unfolding tick fire_slot
  tick_early w e v h early =
      let c = cascaded w in
      let (v1, now) = cascaded-Inv w v in
      let h1 = cascaded-Holds w k n v h in
      fire_all-Holds run k uses (slot c.l0 (c.now_tick % slots)) (emptied c v1) e (c.now_tick + 1) n
        refl (emptied-Inv c v1) (due_now c k n v1 h1 ∙ ground (arith, now)) h1

  module _ (P : E → Type 0) (brings : (w : Wheel C) (e : E) → P (run n.cb (w, e)).1)
      (keeps : (c : C) (w : Wheel C) (e : E) → P e → P (run c (w, e)).1) where
    tick_due :
        (w : Wheel C) (e : E)
        → IsReady w
        → Holds w k n
        → w.now_tick + 1 ≡ n.expiry_tick
        → P (tick run (w, e)).1
    unfolding tick fire_slot
    tick_due w e v h due =
        let c = cascaded w in
        let (v1, now) = cascaded-Inv w v in
        let h1 = cascaded-Holds w k n v h in
        fire_all_runs run k uses n P brings keeps (slot c.l0 (c.now_tick % slots)) (emptied c v1) e
          (c.now_tick + 1) refl (emptied-Inv c v1) (due_now c k n v1 h1 ∙ ground (arith, now)) h1

    pub ticks_on_time :
        (m : ℕ) (w : Wheel C) (e : E)
        → IsReady w
        → Holds w k n
        → w.now_tick + m ≡ n.expiry_tick
        → 1 ≤ m
        → ((j : ℕ) → j < m → Holds (ticks run j (w, e)).0 k n) × P (ticks run m (w, e)).1
    unfolding ticks
    ticks_on_time zero w e v h at pos = absurd (omega arith)
    ticks_on_time (suc zero) w e v h at pos = (only, tick_due w e v h at)
      where
        only : (j : ℕ) → j < 1 → Holds (ticks run j (w, e)).0 k n
        only zero lt = h
        only (suc j) lt = absurd (omega arith)
    ticks_on_time (suc (suc m)) w e v h at pos =
        let s = tick run (w, e) in
        let (v1, now) = tick-IsReady run (λ id. id ≢ k) uses w e v in
        let (early, done) =
          ticks_on_time (suc m) s.0 s.1 v1 (tick_early w e v h (omega arith)) (omega (arith, now))
            (omega arith) in
        (before early, done)
      where
        before :
            ((j : ℕ) → j < suc m → Holds (ticks run j (tick run (w, e))).0 k n)
            → (j : ℕ) → j < suc (suc m)
            → Holds (ticks run j (w, e)).0 k n
        before early zero lt = h
        before early (suc j) lt = early j (omega arith)

ticks_of_pos : (ms : ℕ) → 1 ≤ ticks_of ms
unfolding ticks_of
ticks_of_pos ms = ground arith

-- A timer that is added to a wheel in order with a delay of `ms`, and that no callback cancels, is
-- still set, with its callback, after every number of ticks below `m`, and its callback has run after
-- `m` ticks, where `m` is the delay in ticks of 100 ms, rounded up, but at least 1 and at most 4095.
-- That the callback ran is said by any `P` that it brings about and that no callback undoes.
pub add_on_time :
    {C : Type 0} {E : Type 0} (run : C → Wheel C × E → Wheel C × E) (w : Wheel C) (ms : ℕ) (cb : C)
    (e : E) (P : E → Type 0)
    → ((c : C) (u : Wheel C) (f : E) → Uses (λ id. id ≢ w.next_id) u (run c (u, f)).0)
    → ((u : Wheel C) (f : E) → P (run cb (u, f)).1)
    → ((c : C) (u : Wheel C) (f : E) → P f → P (run c (u, f)).1)
    → IsReady w
    → let m = min (ticks_of ms) 4095 in
      let u = (add w ms cb).0 in
      ((j : ℕ)
        → j < m
        → Holds
            (ticks run j (u, e)).0
            w.next_id
            (record { expiry_tick = w.now_tick + m; cb = cb; canceled = false }))
      × P (ticks run m (u, e)).1
add_on_time run w ms cb e P uses brings keeps v =
    let m = min (ticks_of ms) 4095 in
    let same = now_tick-add w (w.now_tick + 1) [] v ms cb (omega arith) in
    ticks_on_time run w.next_id uses
      (record { expiry_tick = w.now_tick + m; cb = cb; canceled = false }) P brings keeps m
      (add w ms cb).0 e
      (subst (λ t. Inv (add w ms cb).0 (t + 1) []) (sym same)
        (add-Inv w (w.now_tick + 1) [] v ms cb (omega arith)))
      (add-Holds w (w.now_tick + 1) [] v ms cb (omega arith)) (omega (arith, same))
      (omega (arith, ticks_of_pos ms))
