-- ===== src/TimerWheel/FireAll.antt =====
-- timer/TimerWheel.cc: the loop of `fireSlot`, seen from one timer.
use my_game_server.Base.{
  ℕ, ◌+◌, ◌==◌, true, false, List, [], ◌∷◌, Option, none, some, ◌≡◌, ◌≢◌, arith, inl, inr,
  Bool-cases, ==→eq, ==→ne,
}
use my_game_server.Base.Map.{lookup}
use my_game_server.Base.IdSet
use my_game_server.Base.IdSet.{mem, mem-cons, mem-nil, mem-erase}
use my_game_server.TimerWheel.{Node, Wheel, fire_node, fire_all}
use my_game_server.TimerWheel.Inv.{Inv}
use my_game_server.TimerWheel.Calls.{Holds}
use my_game_server.TimerWheel.Client.{Uses, Uses-Holds}
use my_game_server.TimerWheel.Ticks.{erase-Inv, fire_node-Inv}

-- The timer `k` is watched. No callback cancels it.
module _ {C : Type 0} {E : Type 0} (run : C → Wheel C × E → Wheel C × E) (k : ℕ)
    (uses : (c : C) (w : Wheel C) (e : E) → Uses (λ id. id ≢ k) w (run c (w, e)).0) where
  erase-Holds :
      (w : Wheel C) (id : ℕ) (n : Node C)
      → id ≢ k
      → Holds w k n
      → Holds (record w { alive = IdSet.erase id w.alive }) k n
  erase-Holds w id n ne (e, m) = (e, ground (arith, mem-erase id k w.alive))

  -- Another node's turn leaves the timer as it is.
  fire_node-Holds :
      (id : ℕ) (ids : List ℕ) (w : Wheel C) (e : E) (t : ℕ) (n : Node C)
      → t ≡ w.now_tick + 1
      → Inv w t (id ∷ ids)
      → id ≢ k
      → Holds w k n
      → Holds (fire_node run id (lookup id w.nodes) (w, e)).0 k n
  fire_node-Holds id ids w e t n at v ne h = by_node (lookup id w.nodes)
    where
      by_node : (o : Option (Node C)) → Holds (fire_node run id o (w, e)).0 k n
      by_node none = h
      by_node (some x) = elim (Bool-cases x.canceled) [
        | inl c ↦ rw c h
        | inr c ↦
            let w' : Wheel C = record w { alive = IdSet.erase id w.alive } in
            rw c (
              Uses-Holds k n t (id ∷ ids) (uses x.cb w' e) (erase-Inv w t id (id ∷ ids) v)
                (omega arith) (erase-Holds w id n ne h))
      ]

  pub fire_all-Holds :
      (ids : List ℕ) (w : Wheel C) (e : E) (t : ℕ) (n : Node C)
      → t ≡ w.now_tick + 1
      → Inv w t ids
      → mem k ids ≡ false
      → Holds w k n
      → Holds (fire_all run ids (w, e)).0 k n
  unfolding fire_all
  fire_all-Holds [] w e t n at v out h = h
  fire_all-Holds (id ∷ ids) w e t n at v out h =
      let ne : id ≢ k = λ same. ground (arith, mem-cons k id ids) in
      let (v', same) = fire_node-Inv run (λ id. id ≢ k) uses id ids w e t at v in
      let s = fire_node run id (lookup id w.nodes) (w, e) in
      fire_all-Holds ids s.0 s.1 t n (omega arith) v' (ground (arith, mem-cons k id ids))
        (fire_node-Holds id ids w e t n at v ne h)

  -- `P` is brought about by the timer's callback, and no callback undoes it.
  module _ (n : Node C) (P : E → Type 0) (brings : (w : Wheel C) (e : E) → P (run n.cb (w, e)).1)
      (keeps : (c : C) (w : Wheel C) (e : E) → P e → P (run c (w, e)).1) where
    fire_all_keeps : (ids : List ℕ) (w : Wheel C) (e : E) → P e → P (fire_all run ids (w, e)).1
    unfolding fire_all
    fire_all_keeps [] w e p = p
    fire_all_keeps (id ∷ ids) w e p =
        let s = fire_node run id (lookup id w.nodes) (w, e) in
        fire_all_keeps ids s.0 s.1 (by_node (lookup id w.nodes))
      where
        by_node : (o : Option (Node C)) → P (fire_node run id o (w, e)).1
        by_node none = p
        by_node (some x) = elim (Bool-cases x.canceled) [
          | inl c ↦ rw c p
          | inr c ↦ rw c (keeps x.cb (record w { alive = IdSet.erase id w.alive }) e p)
        ]

    pub fire_all_runs :
        (ids : List ℕ) (w : Wheel C) (e : E) (t : ℕ)
        → t ≡ w.now_tick + 1
        → Inv w t ids
        → mem k ids ≡ true
        → Holds w k n
        → P (fire_all run ids (w, e)).1
    unfolding fire_all
    fire_all_runs [] w e t at v here h = absurd (cc (here, mem-nil k))
    fire_all_runs (id ∷ ids) w e t at v here h = elim (Bool-cases (id == k)) [
      | inl now ↦
          let s = fire_node run id (lookup id w.nodes) (w, e) in
          fire_all_keeps ids s.0 s.1 (fired (==→eq id k now))
      | inr later ↦
          let ne = ==→ne id k later in
          let (v', same) = fire_node-Inv run (λ id. id ≢ k) uses id ids w e t at v in
          let s = fire_node run id (lookup id w.nodes) (w, e) in
          fire_all_runs ids s.0 s.1 t (omega arith) v' (ground (arith, mem-cons k id ids))
            (fire_node-Holds id ids w e t n at v ne h)
    ]
      where
        fired : id ≡ k → P (fire_node run id (lookup id w.nodes) (w, e)).1
        fired same =
            let (x, f, live, _) = v.kept k h.1 in
            let c : n.canceled ≡ false = cc (f, h.0, live) in
            let g : lookup id w.nodes ≡ some n = cc (same, h.0) in
            rw (g, fire_node, c) (brings (record w { alive = IdSet.erase id w.alive }) e)
