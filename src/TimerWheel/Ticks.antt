-- ===== src/TimerWheel/Ticks.antt =====
-- timer/TimerWheel.cc: a tick with its callbacks keeps the invariant, so that no timer is overdue.
use my_game_server.Base.{
  ℕ, zero, suc, ◌+◌, ◌%◌, ◌<◌, ◌==◌, true, false, List, [], ◌∷◌, Option, none, some, set, length,
  replicate, ◌≡◌, ◌≢◌, refl, sym, subst, ◌∙◌, arith, inl, inr, length-set, Bool-cases, ==→eq,
}
use my_game_server.Base.Map.{lookup}
use my_game_server.Base.IdSet
use my_game_server.Base.IdSet.{mem, mem-cons, mem-nil, mem-erase}
use my_game_server.TimerWheel.{Node, Wheel, slot, slots, new, is_canceled, fire_node, fire_all}
use my_game_server.TimerWheel.Inv.{Kept, Inv, mem-clear_slot}
use my_game_server.TimerWheel.Client.{Uses, Uses-Inv}
use my_game_server.TimerWheel.Cascade.{drop_pending, canceled_gone}

module _ {C : Type 0} where
  -- Taking the slot of the current tick out of the first level.
  module _ (w : Wheel C) (v : Inv w w.now_tick []) where
    abbrev now_slot : ℕ
    now_slot = w.now_tick % slots

    abbrev pub emptied : Wheel C
    emptied = record w { l0 = set w.l0 now_slot [] }

    inside : now_slot < length w.l0
    inside = omega (arith, v.sized0)

    cleared :
        (i j : ℕ) → mem j (slot emptied.l0 i) ≡ true → (mem j (slot w.l0 i) ≡ true) × (now_slot ≢ i)
    cleared i j m = ground (arith, mem-clear_slot w.l0 now_slot i j inside)

    keep : (j : ℕ) → Kept w [] j → Kept emptied (slot w.l0 now_slot) j
    keep j (x, e, c, inl a) = (
      x,
      e,
      c,
      elim (Bool-cases (now_slot == (x.expiry_tick % slots))) [
        | inl here ↦
            inr (inr (subst (λ k. mem j (slot w.l0 k) ≡ true) (sym (==→eq now_slot _ here)) a))
        | inr other ↦
            inl (mem-clear_slot w.l0 now_slot (x.expiry_tick % slots) j inside ∙ rw other a)
      ],
    )
    keep j (x, e, c, inr (inl b)) = (x, e, c, inr (inl b))
    keep j (x, e, c, inr (inr p)) = absurd (cc (p, mem-nil j))

    pub emptied-Inv : Inv emptied (w.now_tick + 1) (slot w.l0 now_slot)
    emptied-Inv = record {
      sized0 = length-set {A = List ℕ} w.l0 now_slot [] ∙ v.sized0;
      sized1 = v.sized1;
      fresh = v.fresh;
      near = λ i j m.
          let (old, ne) = cleared i j m in
          let (x, e, lo, hi, k) = v.near i j old in (x, e, omega arith, hi, k);
      far = v.far;
      kept = λ j m. keep j (v.kept j m);
    }

  pub erase-Inv :
      (w : Wheel C) (t id : ℕ) (pending : List ℕ)
      → Inv w t pending
      → Inv (record w { alive = IdSet.erase id w.alive }) t pending
  erase-Inv w t id pending v = record {
    sized0 = v.sized0;
    sized1 = v.sized1;
    fresh = v.fresh;
    near = v.near;
    far = v.far;
    kept = λ j m. v.kept j (ground (arith, mem-erase id j w.alive));
  }

  -- A wheel at rest: the slot of the current tick has fired, and every timer that can be canceled has
  -- a node, is not canceled, and stands in a slot that fires at its expiry, after the current tick.
  abbrev pub IsReady : Wheel C → Type 0
  IsReady w = Inv w (w.now_tick + 1) []

  pub new-IsReady : IsReady (new {C = C})
  unfolding new lookup
  new-IsReady = record {
    sized0 = refl;
    sized1 = refl;
    fresh = λ id n e. absurd (cc e);
    near = λ i id m. absurd (cc (m, empty_slot 64 i id));
    far = λ i id m. absurd (cc (m, empty_slot 64 i id));
    kept = λ id m. absurd (cc (m, mem-nil id));
  }
    where
      empty_slot : (n i id : ℕ) → mem id (slot (replicate n []) i) ≡ false
      empty_slot zero i id = mem-nil id
      empty_slot (suc n) zero id = mem-nil id
      empty_slot (suc n) (suc i) id = empty_slot n i id

  pub Uses-IsReady : {Ok : ℕ → Type 0} {w w' : Wheel C} → Uses Ok w w' → IsReady w → IsReady w'
  Uses-IsReady {w = w} {w' = w'} u v =
      let (v', same) = Uses-Inv (w.now_tick + 1) [] u v (omega arith) in
      subst (λ t. Inv w' (t + 1) []) (sym same) v'

  -- No timer of a wheel at rest is overdue.
  pub IsReady-alive :
      (w : Wheel C) (id : ℕ)
      → IsReady w
      → mem id w.alive ≡ true
      → (n : Node C) × (lookup id w.nodes ≡ some n)
        × (n.canceled ≡ false)
        × (w.now_tick < n.expiry_tick)
  IsReady-alive w id v m = where_it_is (v.kept id m)
    where
      where_it_is :
          Kept w [] id
          → (n : Node C) × (lookup id w.nodes ≡ some n)
            × (n.canceled ≡ false)
            × (w.now_tick < n.expiry_tick)
      where_it_is (x, e, c, inl a) =
          let (y, f, lo, _, _) = v.near _ id a in
          let g : y.expiry_tick ≡ x.expiry_tick = cc (e, f) in (x, e, c, omega arith)
      where_it_is (x, e, c, inr (inl b)) =
          let (y, f, lo, _, _) = v.far _ id b in
          let g : y.expiry_tick ≡ x.expiry_tick = cc (e, f) in (x, e, c, omega arith)
      where_it_is (x, e, c, inr (inr p)) = absurd (cc (p, mem-nil id))

module _ {C : Type 0} {E : Type 0} (run : C → Wheel C × E → Wheel C × E) (Ok : ℕ → Type 0)
    (uses : (c : C) (w : Wheel C) (e : E) → Uses Ok w (run c (w, e)).0) where
  pub fire_node-Inv :
      (id : ℕ) (ids : List ℕ) (w : Wheel C) (e : E) (t : ℕ)
      → t ≡ w.now_tick + 1
      → Inv w t (id ∷ ids)
      → let s = fire_node run id (lookup id w.nodes) (w, e) in
        Inv s.0 t ids × (s.0.now_tick ≡ w.now_tick)
  fire_node-Inv id ids w e t at v = by_node (lookup id w.nodes) refl
    where
      skipped : is_canceled (lookup id w.nodes) ≡ true → Inv w t ids
      skipped c = drop_pending w t id ids v (canceled_gone w t (id ∷ ids) id v c)

      erased : Wheel C
      erased = record w { alive = IdSet.erase id w.alive }

      erased-Inv : Inv erased t ids
      erased-Inv =
          drop_pending erased t id ids (erase-Inv w t id (id ∷ ids) v)
            (ground (arith, mem-erase id id w.alive))

      by_node :
          (o : Option (Node C))
          → lookup id w.nodes ≡ o
          → let s = fire_node run id o (w, e) in Inv s.0 t ids × (s.0.now_tick ≡ w.now_tick)
      by_node none f = (skipped (rw f), refl)
      by_node (some n) f = elim (Bool-cases n.canceled) [
        | inl c ↦ rw c (skipped (rw f c), refl)
        | inr c ↦ rw c (Uses-Inv t ids (uses n.cb erased e) erased-Inv (omega arith))
      ]

  pub fire_all-Inv :
      (ids : List ℕ) (w : Wheel C) (e : E) (t : ℕ)
      → t ≡ w.now_tick + 1
      → Inv w t ids
      → let s = fire_all run ids (w, e) in Inv s.0 t [] × (s.0.now_tick ≡ w.now_tick)
  unfolding fire_all
  fire_all-Inv [] w e t at v = (v, refl)
  fire_all-Inv (id ∷ ids) w e t at v =
      let (v1, same) = fire_node-Inv id ids w e t at v in
      let s = fire_node run id (lookup id w.nodes) (w, e) in
      let (v2, same') = fire_all-Inv ids s.0 s.1 t (omega arith) v1 in (v2, same' ∙ same)
