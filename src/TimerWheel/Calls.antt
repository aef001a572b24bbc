-- ===== src/TimerWheel/Calls.antt =====
-- timer/TimerWheel.cc: `add` keeps the invariant of the wheel and the timers that are set.
use my_game_server.Base.{
  ℕ, ◌+◌, ◌%◌, ◌≤◌, ltb, ◌==◌, true, false, List, ◌∷◌, some, ◌≡◌, ◌≢◌, refl, sym, subst, ◌∙◌, arith,
  inl, inr, Bool-cases, ==→eq, ltb→lt, ltb→le, ==_self, ne→==, min,
}
use my_game_server.Base.Map
use my_game_server.Base.Map.{lookup, lookup-insert}
use my_game_server.Base.IdSet
use my_game_server.Base.IdSet.{mem, mem-cons, mem-insert, mem-erase}
use my_game_server.TimerWheel.{
  Node, Wheel, slot, slots, push_slot, place_node, place_found, place, ticks_of, add,
}
use my_game_server.TimerWheel.Place.{
  cut, far_wheel, place_far, place_far-Inv, lookup_far_self, lookup_far_other,
}
use my_game_server.TimerWheel.Inv.{Kept, Inv, place_near, place_near-Inv}

-- The timer `id` has the node `n` and can be canceled.
abbrev pub Holds : {C : Type 0} → Wheel C → ℕ → Node C → Type 0
Holds w id n = (lookup id w.nodes ≡ some n) × (mem id w.alive ≡ true)

module _ {C : Type 0} (w : Wheel C) (t : ℕ) (pending : List ℕ) (v : Inv w t pending) where
  -- The next id names nothing yet.
  unused : (n : Node C) → lookup w.next_id w.nodes ≡ some n → ⊥
  unused n e = omega (arith, v.fresh w.next_id n e)

  unused0 : (i : ℕ) → mem w.next_id (slot w.l0 i) ≡ false
  unused0 i = elim (Bool-cases (mem w.next_id (slot w.l0 i))) [
    | inl m ↦ let (n, e, _, _, _) = v.near i w.next_id m in absurd (unused n e)
    | inr m ↦ m
  ]

  unused1 : (i : ℕ) → mem w.next_id (slot w.l1 i) ≡ false
  unused1 i = elim (Bool-cases (mem w.next_id (slot w.l1 i))) [
    | inl m ↦ let (n, e, _, _, _) = v.far i w.next_id m in absurd (unused n e)
    | inr m ↦ m
  ]

  set_apart : (j : ℕ) (n : Node C) → lookup j w.nodes ≡ some n → w.next_id ≢ j
  set_apart j n e same = omega (arith, v.fresh j n e)

  module _ (n : Node C) where
    abbrev with_node : Wheel C
    with_node = record w {
      next_id = w.next_id + 1;
      alive = IdSet.insert w.next_id w.alive;
      nodes = Map.insert w.next_id n w.nodes;
    }

    old_node : (j : ℕ) (x : Node C) → lookup j w.nodes ≡ some x → lookup j with_node.nodes ≡ some x
    old_node j x e =
        lookup-insert w.next_id j n w.nodes ∙ rw (ne→== w.next_id j (set_apart j x e)) e

    new_node : lookup w.next_id with_node.nodes ≡ some n
    new_node = lookup-insert w.next_id w.next_id n w.nodes ∙ rw (==_self w.next_id)

    old-Kept : (j : ℕ) → Kept w pending j → Kept with_node (w.next_id ∷ pending) j
    old-Kept j (x, ex, cx, inl a) = (x, old_node j x ex, cx, inl a)
    old-Kept j (x, ex, cx, inr (inl b)) = (x, old_node j x ex, cx, inr (inl b))
    old-Kept j (x, ex, cx, inr (inr p)) =
        (x, old_node j x ex, cx, inr (inr (ground (arith, mem-cons j w.next_id pending))))

    with_node-Inv : n.canceled ≡ false → Inv with_node t (w.next_id ∷ pending)
    with_node-Inv c = record {
      sized0 = v.sized0;
      sized1 = v.sized1;
      fresh = λ j x e. elim (Bool-cases (w.next_id == j)) [
        | inl here ↦ omega (arith, ==→eq w.next_id j here)
        | inr other ↦
            let f : lookup j w.nodes ≡ some x =
              sym (lookup-insert w.next_id j n w.nodes ∙ rw other) ∙ e in
            omega (arith, v.fresh j x f)
      ];
      near = λ i j m. let (x, ex, lo, hi, at) = v.near i j m in (x, old_node j x ex, lo, hi, at);
      far = λ i j m. let (x, ex, lo, hi, at) = v.far i j m in (x, old_node j x ex, lo, hi, at);
      kept = λ j m. elim (Bool-cases (w.next_id == j)) [
        | inl here ↦
            let same = ==→eq w.next_id j here in
            (
              n,
              subst (λ k. lookup k with_node.nodes ≡ some n) same new_node,
              c,
              inr (inr (ground (arith, mem-cons j w.next_id pending))),
            )
        | inr other ↦ old-Kept j (v.kept j (ground (arith, mem-insert w.next_id j w.alive)))
      ];
    }

  module _ (delay_ms : ℕ) (cb : C) (soon : t ≤ w.now_tick + 1) where
    abbrev node : Node C
    node = record { expiry_tick = w.now_tick + ticks_of delay_ms; cb = cb; canceled = false }

    ticks_pos : 1 ≤ ticks_of delay_ms
    unfolding ticks_of
    ticks_pos = ground arith

    pub add-Inv : Inv (add w delay_ms cb).0 t pending
    unfolding add
    add-Inv = elim (Bool-cases (ltb (ticks_of delay_ms) slots)) [
      | inl near ↦
          place_near-Inv (with_node node) t pending w.next_id node (with_node-Inv node refl)
            (new_node node) (omega (arith, ticks_pos)) (omega arith)
            (omega (arith, ltb→lt _ _ near))
      | inr far ↦
          place_far-Inv (with_node node) t pending w.next_id node (with_node-Inv node refl)
            (new_node node) (omega (arith, ltb→le _ _ far)) unused0 unused1
    ]

    pub now_tick-add : (add w delay_ms cb).0.now_tick ≡ w.now_tick
    unfolding add place place_node
    now_tick-add = rw (new_node node, place_found) (ground arith)

    alive_after : (k : ℕ) → mem k w.alive ≡ true → mem k (IdSet.insert w.next_id w.alive) ≡ true
    alive_after k m = ground (arith, mem-insert w.next_id k w.alive)

    alive_new : mem w.next_id (IdSet.insert w.next_id w.alive) ≡ true
    alive_new = ground (arith, mem-insert w.next_id w.next_id w.alive)

    add_near :
        ltb (ticks_of delay_ms) slots ≡ true
        → (add w delay_ms cb).0 ≡ record (with_node node) {
          l0 = push_slot w.l0 ((w.now_tick + ticks_of delay_ms) % slots) w.next_id;
        }
    unfolding add
    add_near near =
        place_near (with_node node) t pending w.next_id node (new_node node)
          (omega (arith, ltb→lt _ _ near))

    add_far :
        ltb (ticks_of delay_ms) slots ≡ false
        → (add w delay_ms cb).0 ≡ far_wheel (with_node node) t pending w.next_id node
    unfolding add
    add_far far =
        place_far (with_node node) t pending w.next_id node (new_node node)
          (omega (arith, ltb→le _ _ far))

    -- The new timer, with the expiry that it is given: at most 4095 ticks away.
    pub add-Holds : Holds (add w delay_ms cb).0 w.next_id (record {
      expiry_tick = w.now_tick + min (ticks_of delay_ms) 4095;
      cb = cb;
      canceled = false;
    })
    add-Holds = elim (Bool-cases (ltb (ticks_of delay_ms) slots)) [
      | inl near ↦
          let e : min (ticks_of delay_ms) 4095 ≡ ticks_of delay_ms =
            omega (arith, ltb→lt _ _ near) in
          rw (add_near near, e) (new_node node, alive_new)
      | inr far ↦
          let e : cut (with_node node) t pending w.next_id node
              ≡ w.now_tick + min (ticks_of delay_ms) 4095 =
            ground (arith, ltb→le _ _ far) in
          rw (add_far far, ← e)
            (lookup_far_self (with_node node) t pending w.next_id node, alive_new)
    ]

    -- The timers that were set stay as they are.
    pub add_keeps : (k : ℕ) (n : Node C) → Holds w k n → Holds (add w delay_ms cb).0 k n
    add_keeps k n (e, m) = elim (Bool-cases (ltb (ticks_of delay_ms) slots)) [
      | inl near ↦ rw (add_near near) (old_node node k n e, alive_after k m)
      | inr far ↦ rw (add_far far) (
        lookup_far_other (with_node node) t pending w.next_id node k (set_apart k n e)
            ∙ old_node node k n e,
        alive_after k m,
      )
    ]
