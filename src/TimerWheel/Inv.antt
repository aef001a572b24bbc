-- ===== src/TimerWheel/Inv.antt =====
-- timer/TimerWheel.cc: the invariant of the wheel, and that placing a node keeps it.
use my_game_server.Base.{
  ℕ, ◌+◌, ◌-◌, ◌/◌, ◌%◌, ◌≤◌, ◌<◌, ◌==◌, if◌then◌else◌, true, false, List, [], ◌∷◌, ◌++◌, some, set,
  length, ◌≡◌, sym, subst, ◌∙◌, arith, ◌⊎◌, inl, inr, length-set, get_or-set_self, get_or-set_ne,
  Bool-cases, lt→ltb, ==→eq, ==→ne,
}
use my_game_server.Base.Map.{lookup}
use my_game_server.Base.IdSet.{mem, mem-append, mem-cons, mem_single}
use my_game_server.TimerWheel.{Node, Wheel, slot, slots, push_slot, place_found, place}

pub mem-push_slot :
    (l : List (List ℕ)) (i k id j : ℕ)
    → i < length l
    → mem j (slot (push_slot l i id) k)
      ≡ (if i == k then (if id == j then true else mem j (slot l k)) else mem j (slot l k))
mem-push_slot l i k id j h = elim (Bool-cases (i == k)) [
  | inl same ↦
      let e = ==→eq i k same in
      rw (same, ← e, get_or-set_self l i (slot l i ++ (id ∷ [])) [] h)
        (ground (arith, mem-append j (slot l i) (id ∷ []), mem_single j id))
  | inr other ↦ rw (other, get_or-set_ne l i k (slot l i ++ (id ∷ [])) [] (==→ne i k other))
]

pub push_slot_cases :
    (l : List (List ℕ)) (i k id j : ℕ)
    → i < length l
    → mem j (slot (push_slot l i id) k) ≡ true
    → ((i ≡ k) × (id ≡ j)) ⊎ (mem j (slot l k) ≡ true)
push_slot_cases l i k id j h m = ground (arith, mem-push_slot l i k id j h)

pub push_slot_keeps :
    (l : List (List ℕ)) (i k id j : ℕ)
    → i < length l
    → mem j (slot l k) ≡ true
    → mem j (slot (push_slot l i id) k) ≡ true
push_slot_keeps l i k id j h m = ground (arith, mem-push_slot l i k id j h)

pub push_slot_self :
    (l : List (List ℕ)) (i id : ℕ) → i < length l → mem id (slot (push_slot l i id) i) ≡ true
push_slot_self l i id h = ground (arith, mem-push_slot l i i id id h)

pub pending_cases :
    (id j : ℕ) (ids : List ℕ) → mem j (id ∷ ids) ≡ true → (id ≡ j) ⊎ (mem j ids ≡ true)
pending_cases id j ids m = ground (arith, mem-cons j id ids)

pub mem-clear_slot :
    (l : List (List ℕ)) (i k j : ℕ)
    → i < length l
    → mem j (slot (set l i []) k) ≡ (if i == k then false else mem j (slot l k))
unfolding mem
mem-clear_slot l i k j h = elim (Bool-cases (i == k)) [
  | inl same ↦ let e = ==→eq i k same in rw (same, ← e, get_or-set_self {A = List ℕ} l i [] [] h)
  | inr other ↦ rw (other, get_or-set_ne {A = List ℕ} l i k [] [] (==→ne i k other))
]

module _ {C : Type 0} where
  -- A node in slot `i` of the first level is due at a tick from `t` on, less than a round away.
  abbrev pub Near : Wheel C → ℕ → ℕ → ℕ → Type 0
  Near w t i id =
      (n : Node C) × (lookup id w.nodes ≡ some n)
      × (t ≤ n.expiry_tick)
      × (n.expiry_tick < w.now_tick + slots)
      × (i ≡ n.expiry_tick % slots)

  -- A node in slot `i` of the second level is due in a later round of the first level, at most 64
  -- rounds away.
  abbrev pub Far : Wheel C → ℕ → ℕ → Type 0
  Far w i id =
      (n : Node C) × (lookup id w.nodes ≡ some n)
      × (w.now_tick / slots < n.expiry_tick / slots)
      × (n.expiry_tick / slots ≤ w.now_tick / slots + slots)
      × (i ≡ n.expiry_tick / slots % slots)

  -- A timer that can be canceled stands in the slot of its expiry, or in the list being worked off.
  abbrev pub Kept : Wheel C → List ℕ → ℕ → Type 0
  Kept w pending id =
      (n : Node C) × (lookup id w.nodes ≡ some n)
      × (n.canceled ≡ false)
      × ((mem id (slot w.l0 (n.expiry_tick % slots)) ≡ true)
          ⊎ ((mem id (slot w.l1 (n.expiry_tick / slots % slots)) ≡ true) ⊎ (mem id pending ≡ true)))

  -- `t` is the next tick whose slot will fire, `pending` the nodes taken out of a slot and not yet
  -- treated.
  pub record Inv (w : Wheel C) (t : ℕ) (pending : List ℕ) : Type 0 where
    pub sized0 : length w.l0 ≡ slots
    pub sized1 : length w.l1 ≡ slots
    pub fresh : (id : ℕ) (n : Node C) → lookup id w.nodes ≡ some n → id < w.next_id
    pub near : (i id : ℕ) → mem id (slot w.l0 i) ≡ true → Near w t i id
    pub far : (i id : ℕ) → mem id (slot w.l1 i) ≡ true → Far w i id
    pub kept : (id : ℕ) → mem id w.alive ≡ true → Kept w pending id

  module _ (w : Wheel C) (t : ℕ) (pending : List ℕ) (id : ℕ) (n : Node C) where
    -- Placing a node that is due within a round.
    pub place_near :
        lookup id w.nodes ≡ some n
        → n.expiry_tick - w.now_tick < slots
        → place w id ≡ record w { l0 = push_slot w.l0 (n.expiry_tick % slots) id }
    unfolding place
    place_near e h = rw (e, place_found, lt→ltb _ _ h)

    pub place_near-Inv :
        Inv w t (id ∷ pending)
        → lookup id w.nodes ≡ some n
        → t ≤ n.expiry_tick
        → w.now_tick ≤ n.expiry_tick
        → n.expiry_tick < w.now_tick + slots
        → Inv (place w id) t pending
    place_near-Inv v e lo now hi = rw (place_near e (omega arith)) (record {
      sized0 = length-set w.l0 _ _ ∙ v.sized0;
      sized1 = v.sized1;
      fresh = v.fresh;
      near = λ i j m. elim (push_slot_cases w.l0 (n.expiry_tick % slots) i id j inside m) [
        | inl (at, same) ↦ (n, subst (λ k. lookup k w.nodes ≡ some n) same e, lo, hi, sym at)
        | inr old ↦ v.near i j old
      ];
      far = v.far;
      kept = λ j m. keep j (v.kept j m);
    })
      where
        inside : n.expiry_tick % slots < length w.l0
        inside = omega (arith, v.sized0)

        keep :
            (j : ℕ)
            → Kept w (id ∷ pending) j
            → Kept (record w { l0 = push_slot w.l0 (n.expiry_tick % slots) id }) pending j
        keep j (x, ex, cx, inl a) =
            (x, ex, cx, inl (push_slot_keeps w.l0 _ (x.expiry_tick % slots) id j inside a))
        keep j (x, ex, cx, inr (inl b)) = (x, ex, cx, inr (inl b))
        keep j (x, ex, cx, inr (inr p)) = (
          x,
          ex,
          cx,
          elim (pending_cases id j pending p) [
            | inl same ↦
                let f : n.expiry_tick ≡ x.expiry_tick = cc (same, e, ex) in
                inl (
                  subst
                    (λ k.
                      mem j (slot (push_slot w.l0 (n.expiry_tick % slots) id) (k % slots)) ≡ true)
                    f
                    (subst
                      (λ k.
                        mem k
                          (slot (push_slot w.l0 (n.expiry_tick % slots) id) (n.expiry_tick % slots))
                        ≡ true)
                      same (push_slot_self w.l0 (n.expiry_tick % slots) id inside)))
            | inr q ↦ inr (inr q)
          ],
        )
