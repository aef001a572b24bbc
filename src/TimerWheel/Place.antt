-- ===== src/TimerWheel/Place.antt =====
-- timer/TimerWheel.cc: placing a node in the second level keeps the invariant.
use my_game_server.Base.{
  ℕ, ◌+◌, ◌-◌, ◌*◌, ◌/◌, ◌%◌, ◌≤◌, ◌<◌, leb, ◌==◌, if◌then◌else◌, true, false, List, ◌∷◌, some,
  length, ◌≡◌, ◌≢◌, sym, subst, ◌∙◌, arith, inl, inr, length-set, Bool-cases, le→ltb, ==→eq, ==→ne,
  ==_self, ne→==,
}
use my_game_server.Base.Map
use my_game_server.Base.Map.{lookup, lookup-insert}
use my_game_server.Base.IdSet.{mem}
use my_game_server.TimerWheel.{Node, Wheel, slot, slots, push_slot, place_found, place}
use my_game_server.TimerWheel.Inv.{
  Kept, Inv, push_slot_cases, push_slot_keeps, push_slot_self, pending_cases,
}

module _ {C : Type 0} (w : Wheel C) (t : ℕ) (pending : List ℕ) (id : ℕ) (n : Node C) where
  -- The expiry that `place` leaves in the node.
  abbrev pub cut : ℕ
  cut =
      if leb (slots * slots) (n.expiry_tick - w.now_tick)
      then w.now_tick + slots * slots - 1
      else n.expiry_tick

  abbrev pub far_node : Node C
  far_node = record n { expiry_tick = cut }

  abbrev pub far_wheel : Wheel C
  far_wheel = record w {
    l1 = push_slot w.l1 (cut / slots % slots) id;
    nodes = Map.insert id far_node w.nodes;
  }

  pub place_far :
      lookup id w.nodes ≡ some n → slots ≤ n.expiry_tick - w.now_tick → place w id ≡ far_wheel
  unfolding place
  place_far e h = rw (e, place_found, le→ltb _ _ h)

  pub cut_bounds :
      slots ≤ n.expiry_tick - w.now_tick → (w.now_tick + 64 ≤ cut) × (cut ≤ w.now_tick + 4095)
  cut_bounds h = ground arith

  lookup_far :
      (j : ℕ) → lookup j far_wheel.nodes ≡ (if id == j then some far_node else lookup j w.nodes)
  lookup_far j = lookup-insert id j far_node w.nodes

  pub lookup_far_other : (j : ℕ) → id ≢ j → lookup j far_wheel.nodes ≡ lookup j w.nodes
  lookup_far_other j ne = lookup_far j ∙ rw (ne→== id j ne)

  pub lookup_far_self : lookup id far_wheel.nodes ≡ some far_node
  lookup_far_self = lookup_far id ∙ rw (==_self id)

  module _ (v : Inv w t (id ∷ pending)) (e : lookup id w.nodes ≡ some n)
      (h : slots ≤ n.expiry_tick - w.now_tick) (out0 : (i : ℕ) → mem id (slot w.l0 i) ≡ false)
      (out1 : (i : ℕ) → mem id (slot w.l1 i) ≡ false) where
    apart0 : (i j : ℕ) → mem j (slot w.l0 i) ≡ true → id ≢ j
    apart0 i j m same = cc (m, out0 i, same)

    apart1 : (i j : ℕ) → mem j (slot w.l1 i) ≡ true → id ≢ j
    apart1 i j m same = cc (m, out1 i, same)

    inside : cut / slots % slots < length w.l1
    inside = omega (arith, v.sized1)

    far_keep : (j : ℕ) → Kept w (id ∷ pending) j → Kept far_wheel pending j
    far_keep j (x, ex, cx, inl a) = (x, lookup_far_other j (apart0 _ j a) ∙ ex, cx, inl a)
    far_keep j (x, ex, cx, inr (inl b)) = (
      x,
      lookup_far_other j (apart1 _ j b) ∙ ex,
      cx,
      inr (inl (push_slot_keeps w.l1 _ (x.expiry_tick / slots % slots) id j inside b)),
    )
    far_keep j (x, ex, cx, inr (inr p)) = elim (Bool-cases (id == j)) [
      | inl here ↦
          let same = ==→eq id j here in
          (
            far_node,
            subst (λ k. lookup k far_wheel.nodes ≡ some far_node) same lookup_far_self,
            (let f : n ≡ x = cc (same, e, ex) in
                subst (λ (y : Node C). y.canceled ≡ false) (sym f) cx),
            inr (
                inl (
                  subst (λ k. mem k (slot far_wheel.l1 (cut / slots % slots)) ≡ true) same
                    (push_slot_self w.l1 (cut / slots % slots) id inside))),
          )
      | inr other ↦
          let ne = ==→ne id j other in
          let q : mem j pending ≡ true = ground (arith, pending_cases id j pending p) in
          (x, lookup_far_other j ne ∙ ex, cx, inr (inr q))
    ]

    pub place_far-Inv : Inv (place w id) t pending
    place_far-Inv = rw (place_far e h) (record {
      sized0 = v.sized0;
      sized1 = length-set w.l1 _ _ ∙ v.sized1;
      fresh = λ j m f. elim (Bool-cases (id == j)) [
        | inl here ↦ subst (λ k. k < w.next_id) (==→eq id j here) (v.fresh id n e)
        | inr other ↦ v.fresh j m (sym (lookup_far_other j (==→ne id j other)) ∙ f)
      ];
      near = λ i j m.
          let (x, ex, lo, hi, at) = v.near i j m in
          (x, lookup_far_other j (apart0 i j m) ∙ ex, lo, hi, at);
      far = λ i j m. elim (push_slot_cases w.l1 (cut / slots % slots) i id j inside m) [
        | inl (at, same) ↦ (
          far_node,
          subst (λ k. lookup k far_wheel.nodes ≡ some far_node) same lookup_far_self,
          omega (arith, (cut_bounds h).0),
          omega (arith, (cut_bounds h).1),
          sym at,
        )
        | inr old ↦
            let (x, ex, lo, hi, at) = v.far i j old in
            (x, lookup_far_other j (apart1 i j old) ∙ ex, lo, hi, at)
      ];
      kept = λ j m. far_keep j (v.kept j m);
    })
