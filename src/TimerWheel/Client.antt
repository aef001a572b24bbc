-- ===== src/TimerWheel/Client.antt =====
-- timer/TimerWheel.cc: `cancel`, and any calls that a client makes between two ticks.
use my_game_server.Base.{
  ℕ, ◌+◌, ◌≤◌, ◌<◌, ◌==◌, if◌then◌else◌, true, List, some, ◌≡◌, ◌≢◌, refl, sym, ap, subst, ◌∙◌,
  arith, inl, inr, Bool-cases, ==→eq, ne→==,
}
use my_game_server.Base.Map
use my_game_server.Base.Map.{lookup, lookup-insert}
use my_game_server.Base.IdSet
use my_game_server.Base.IdSet.{mem, mem-cons, mem-insert, mem-erase}
use my_game_server.TimerWheel.{Node, Wheel, add, cancel, mark}
use my_game_server.TimerWheel.Calls.{Holds, add-Inv, add_keeps, now_tick-add}
use my_game_server.TimerWheel.Inv.{Inv}

module _ {C : Type 0} (w : Wheel C) (t : ℕ) (pending : List ℕ) (v : Inv w t pending) where
  cancel_marks :
      (id : ℕ) (n : Node C)
      → lookup id w.nodes ≡ some n
      → mem id w.alive ≡ true
      → cancel w id ≡ record w {
        alive = IdSet.erase id w.alive;
        nodes = Map.insert id (record n { canceled = true }) w.nodes;
      }
  unfolding cancel
  cancel_marks id n e m = rw (m, e, mark)

  canceled_lookup :
      (id j : ℕ) (n x : Node C)
      → lookup id w.nodes ≡ some n
      → lookup j w.nodes ≡ some x
      → lookup j (Map.insert id (record n { canceled = true }) w.nodes)
        ≡ some (if id == j then record x { canceled = true } else x)
  canceled_lookup id j n x e f = elim (Bool-cases (id == j)) [
    | inl here ↦
        let g : n ≡ x = cc (==→eq id j here, e, f) in
        lookup-insert id j (record n { canceled = true }) w.nodes
        ∙ rw here (ap (λ (y : Node C). some (record y { canceled = true })) g)
    | inr other ↦ lookup-insert id j (record n { canceled = true }) w.nodes ∙ rw other f
  ]

  module _ (id : ℕ) (n : Node C) (e : lookup id w.nodes ≡ some n) where
    abbrev marked : Wheel C
    marked = record w {
      alive = IdSet.erase id w.alive;
      nodes = Map.insert id (record n { canceled = true }) w.nodes;
    }

    other_lookup :
        (j : ℕ) (x : Node C) → id ≢ j → lookup j w.nodes ≡ some x → lookup j marked.nodes ≡ some x
    other_lookup j x ne f = canceled_lookup id j n x e f ∙ rw (ne→== id j ne)

    marked-Inv : Inv marked t pending
    marked-Inv = record {
      sized0 = v.sized0;
      sized1 = v.sized1;
      fresh = λ j x f. elim (Bool-cases (id == j)) [
        | inl here ↦ subst (λ k. k < w.next_id) (==→eq id j here) (v.fresh id n e)
        | inr other ↦
            v.fresh j x
              (sym (lookup-insert id j (record n { canceled = true }) w.nodes ∙ rw other) ∙ f)
      ];
      near = λ i j m.
          let (x, f, lo, hi, at) = v.near i j m in
          (
            _,
            canceled_lookup id j n x e f,
            ground (arith, lo),
            ground (arith, hi),
            ground (arith, at),
          );
      far = λ i j m.
          let (x, f, lo, hi, at) = v.far i j m in
          (
            _,
            canceled_lookup id j n x e f,
            ground (arith, lo),
            ground (arith, hi),
            ground (arith, at),
          );
      kept = λ j m.
          let (x, f, c, where_it_is) = v.kept j (ground (arith, mem-erase id j w.alive)) in
          let ne : id ≢ j = λ same. ground (arith, mem-erase id j w.alive) in
          (x, other_lookup j x ne f, c, where_it_is);
    }

  pub cancel-Inv : (id : ℕ) → Inv (cancel w id) t pending
  unfolding cancel
  cancel-Inv id = elim (Bool-cases (mem id w.alive)) [
    | inl m ↦ let (n, e, _, _) = v.kept id m in rw (cancel_marks id n e m) (marked-Inv id n e)
    | inr m ↦ rw m v
  ]

  pub cancel_keeps : (id k : ℕ) (n : Node C) → id ≢ k → Holds w k n → Holds (cancel w id) k n
  unfolding cancel
  cancel_keeps id k n ne (e, m) = elim (Bool-cases (mem id w.alive)) [
    | inl here ↦
        let (x, ex, _, _) = v.kept id here in
        rw (cancel_marks id x ex here)
          (other_lookup id x ex k n ne e, ground (arith, mem-erase id k w.alive, ne→== id k ne))
    | inr gone ↦ rw gone (e, m)
  ]

module _ {C : Type 0} where
  pub now_tick-cancel : (w : Wheel C) (id : ℕ) → (cancel w id).now_tick ≡ w.now_tick
  unfolding cancel
  now_tick-cancel w id = ground arith

  -- What a client may do between two ticks, or a callback within one: `add`, and `cancel` for the ids
  -- that `Ok` allows.
  pub data Uses (Ok : ℕ → Type 0) : Wheel C → Wheel C → Type 0 where
    done : (w : Wheel C) → Uses Ok w w
    adds :
        (w : Wheel C) (delay_ms : ℕ) (cb : C) {w' : Wheel C}
        → Uses Ok (add w delay_ms cb).0 w'
        → Uses Ok w w'
    cancels :
        (w : Wheel C) (id : ℕ) → Ok id → {w' : Wheel C} → Uses Ok (cancel w id) w' → Uses Ok w w'

  pub Uses-Inv :
      {Ok : ℕ → Type 0} {w w' : Wheel C} (t : ℕ) (pending : List ℕ)
      → Uses Ok w w'
      → Inv w t pending
      → t ≤ w.now_tick + 1
      → Inv w' t pending × (w'.now_tick ≡ w.now_tick)
  Uses-Inv t pending (done w) v h = (v, refl)
  Uses-Inv t pending (adds w d c u) v h =
      let same = now_tick-add w t pending v d c h in
      let (v', e) = Uses-Inv t pending u (add-Inv w t pending v d c h) (omega (arith, same)) in
      (v', e ∙ same)
  Uses-Inv t pending (cancels w id ok u) v h =
      let same = now_tick-cancel w id in
      let (v', e) = Uses-Inv t pending u (cancel-Inv w t pending v id) (omega (arith, same)) in
      (v', e ∙ same)

  -- Such calls leave a timer alone that they may not cancel.
  pub Uses-Holds :
      (k : ℕ) (n : Node C) {w w' : Wheel C} (t : ℕ) (pending : List ℕ)
      → Uses (λ id. id ≢ k) w w'
      → Inv w t pending
      → t ≤ w.now_tick + 1
      → Holds w k n
      → Holds w' k n
  Uses-Holds k n t pending (done w) v h s = s
  Uses-Holds k n t pending (adds w d c u) v h s =
      Uses-Holds k n t pending u (add-Inv w t pending v d c h)
        (omega (arith, now_tick-add w t pending v d c h)) (add_keeps w t pending v d c h k n s)
  Uses-Holds k n t pending (cancels w id ne u) v h s =
      Uses-Holds k n t pending u (cancel-Inv w t pending v id) (omega (arith, now_tick-cancel w id))
        (cancel_keeps w t pending v id k n ne s)
