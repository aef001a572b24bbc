-- ===== src/TimerWheel/Cascade.antt =====
-- timer/TimerWheel.cc: a tick's first half. The slot of the second level that comes due is spread over
-- the first level.
use my_game_server.Base.{
  ℕ, ◌+◌, ◌/◌, ◌%◌, ◌≤◌, ◌<◌, ◌==◌, if◌then◌else◌, true, false, List, [], ◌∷◌, some, set, length,
  ◌≡◌, ◌≢◌, refl, sym, subst, ◌∙◌, arith, inl, inr, length-set, Bool-cases, ==→eq, ==→ne,
}
use my_game_server.Base.Map.{lookup}
use my_game_server.Base.IdSet.{mem, mem-cons, mem-nil}
use my_game_server.TimerWheel.{
  Node, Wheel, slot, slots, push_slot, place, place_all, cascade, is_canceled,
}
use my_game_server.TimerWheel.Inv.{
  Kept, Inv, place_near, place_near-Inv, pending_cases, mem-clear_slot,
}

module _ {C : Type 0} where
  -- A node that is canceled or fired is done with.
  pub drop_pending :
      (w : Wheel C) (t id : ℕ) (ids : List ℕ)
      → Inv w t (id ∷ ids)
      → mem id w.alive ≡ false
      → Inv w t ids
  drop_pending w t id ids v gone = record {
    sized0 = v.sized0;
    sized1 = v.sized1;
    fresh = v.fresh;
    near = v.near;
    far = v.far;
    kept = λ j m. keep j m (v.kept j m);
  }
    where
      keep : (j : ℕ) → mem j w.alive ≡ true → Kept w (id ∷ ids) j → Kept w ids j
      keep j m (x, e, c, inl a) = (x, e, c, inl a)
      keep j m (x, e, c, inr (inl b)) = (x, e, c, inr (inl b))
      keep j m (x, e, c, inr (inr p)) = (
        x,
        e,
        c,
        elim (pending_cases id j ids p) [ inl same ↦ cc (gone, m, same) | inr q ↦ inr (inr q) ],
      )

  pub canceled_gone :
      (w : Wheel C) (t : ℕ) (pending : List ℕ) (id : ℕ)
      → Inv w t pending
      → is_canceled (lookup id w.nodes) ≡ true
      → mem id w.alive ≡ false
  canceled_gone w t pending id v c = elim (Bool-cases (mem id w.alive)) [
    | inl m ↦ let (n, e, live, _) = v.kept id m in cc (live, subst (λ o. is_canceled o ≡ true) e c)
    | inr m ↦ m
  ]

  -- The nodes of a list that are due within the round that begins.
  abbrev pub Due : Wheel C → List ℕ → Type 0
  Due w ids =
      (id : ℕ)
      → mem id ids ≡ true
      → (n : Node C) × (lookup id w.nodes ≡ some n)
        × (w.now_tick ≤ n.expiry_tick)
        × (n.expiry_tick < w.now_tick + slots)

  -- Nothing but the first level changes.
  abbrev pub Alike : Wheel C → Wheel C → Type 0
  Alike w w' = (w'.now_tick ≡ w.now_tick) × (w'.nodes ≡ w.nodes) × (w'.alive ≡ w.alive)

  place_all-Inv :
      (ids : List ℕ) (w : Wheel C) (t : ℕ)
      → t ≡ w.now_tick
      → Inv w t ids
      → Due w ids
      → Inv (place_all ids w) t [] × Alike w (place_all ids w)
  unfolding place_all
  place_all-Inv [] w t at v due = (v, (refl, refl, refl))
  place_all-Inv (id ∷ ids) w t at v due = elim (Bool-cases (is_canceled (lookup id w.nodes))) [
    | inl gone ↦
        let step : (if is_canceled (lookup id w.nodes) then w else place w id) ≡ w = rw gone in
        subst (λ u. Inv (place_all ids u) t [] × Alike w (place_all ids u)) (sym step)
          (place_all-Inv ids w t at
            (drop_pending w t id ids v (canceled_gone w t (id ∷ ids) id v gone))
            (λ j m. due j (ground (arith, mem-cons j id ids))))
    | inr live ↦
        let (n, e, lo, hi) = due id (ground (arith, mem-cons id id ids)) in
        let placed = place_near w t ids id n e (omega arith) in
        let u : Wheel C = record w { l0 = push_slot w.l0 (n.expiry_tick % slots) id } in
        let step : (if is_canceled (lookup id w.nodes) then w else place w id) ≡ u =
          rw live placed in
        subst (λ u. Inv (place_all ids u) t [] × Alike w (place_all ids u)) (sym step)
          (place_all-Inv ids u t at
            (subst (λ u. Inv u t ids) placed (place_near-Inv w t ids id n v e (omega arith) lo hi))
            (λ j m. due j (ground (arith, mem-cons j id ids))))
  ]

  module _ (w : Wheel C) (t : ℕ) (at : t ≡ w.now_tick + 1) (v : Inv w t []) where
    abbrev next_wheel : Wheel C
    next_wheel = record w { now_tick = w.now_tick + 1 }

    abbrev due_slot : ℕ
    due_slot = next_wheel.now_tick / slots % slots

    within_round : (next_wheel.now_tick % slots ≡ 0 → ⊥) → Inv next_wheel t []
    within_round h = record {
      sized0 = v.sized0;
      sized1 = v.sized1;
      fresh = v.fresh;
      near = λ i j m. let (x, e, lo, hi, k) = v.near i j m in (x, e, lo, omega arith, k);
      far = λ i j m.
          let (x, e, lo, hi, k) = v.far i j m in (x, e, omega (arith, h), omega (arith, h), k);
      kept = v.kept;
    }

    abbrev opened : Wheel C
    opened = record next_wheel { l1 = set w.l1 due_slot [] }

    inside : due_slot < length w.l1
    inside = omega (arith, v.sized1)

    opened-Kept : (j : ℕ) → Kept w [] j → Kept opened (slot w.l1 due_slot) j
    opened-Kept j (x, e, c, inl a) = (x, e, c, inl a)
    opened-Kept j (x, e, c, inr (inl b)) = (
      x,
      e,
      c,
      elim (Bool-cases (due_slot == (x.expiry_tick / slots % slots))) [
        | inl here ↦
            inr (inr (subst (λ k. mem j (slot w.l1 k) ≡ true) (sym (==→eq due_slot _ here)) b))
        | inr other ↦ inr (
            inl
              (mem-clear_slot w.l1 due_slot (x.expiry_tick / slots % slots) j inside ∙ rw other b))
      ],
    )
    opened-Kept j (x, e, c, inr (inr p)) = absurd (cc (p, mem-nil j))

    cleared :
        (i j : ℕ) → mem j (slot opened.l1 i) ≡ true → (mem j (slot w.l1 i) ≡ true) × (due_slot ≢ i)
    cleared i j m = ground (arith, mem-clear_slot w.l1 due_slot i j inside)

    new_round : next_wheel.now_tick % slots ≡ 0 → Inv opened t (slot w.l1 due_slot)
    new_round h = record {
      sized0 = v.sized0;
      sized1 = length-set {A = List ℕ} w.l1 due_slot [] ∙ v.sized1;
      fresh = v.fresh;
      near = λ i j m. let (x, e, lo, hi, k) = v.near i j m in (x, e, lo, omega arith, k);
      far = λ i j m.
          let (old, ne) = cleared i j m in
          let (x, e, lo, hi, k) = v.far i j old in (x, e, omega (arith, h), omega (arith, h), k);
      kept = λ j m. opened-Kept j (v.kept j m);
    }

    new_round-Due : next_wheel.now_tick % slots ≡ 0 → Due opened (slot w.l1 due_slot)
    new_round-Due h j m =
        let (x, e, lo, hi, k) = v.far due_slot j m in (x, e, omega (arith, h), omega (arith, h))

    -- After the first half of a tick the first level holds all that is due in this round.
    pub cascade-Inv : Inv (cascade next_wheel) t [] × Alike next_wheel (cascade next_wheel)
    unfolding cascade
    cascade-Inv = elim (Bool-cases (next_wheel.now_tick % slots == 0)) [
      | inl new ↦
          let h = ==→eq (next_wheel.now_tick % slots) 0 new in
          rw new (place_all-Inv (slot w.l1 due_slot) opened t at (new_round h) (new_round-Due h))
      | inr within ↦
          rw within
            (within_round (==→ne (next_wheel.now_tick % slots) 0 within), (refl, refl, refl))
    ]
