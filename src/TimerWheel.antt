-- ===== src/TimerWheel.antt =====
-- timer/TimerWheel.h and timer/TimerWheel.cc: a wheel of two levels, 64 slots of 100 ms and 64 slots
-- of 6.4 s. A slot holds the ids of its nodes; the nodes, which the slots and `alive_` share, are a
-- store of their own. A callback is a value of the type `C`, and `run` executes it: it may call `add`
-- and `cancel`, and changes the state `E` of its owner. The 64-bit counters are not brought to wrap.
pub mod Inv
pub mod Place
pub mod Calls
pub mod Client
pub mod Cascade
pub mod Ticks
pub mod Advance
pub mod FireAll
pub mod OnTime
pub mod Keeps
mod Tests
use my_game_server.Base.{
  ℕ, zero, suc, ◌+◌, ◌-◌, ◌*◌, ◌/◌, ◌%◌, ltb, leb, ◌==◌, if◌then◌else◌, Bool, true, false, List, [],
  ◌∷◌, ◌++◌, Option, none, some, get_or, set, replicate,
}
use my_game_server.Base.Map
use my_game_server.Base.Map.{Map}
use my_game_server.Base.IdSet

abbrev pub tick_ms : ℕ
tick_ms = 100

abbrev pub slots : ℕ
slots = 64

-- `Node`; its id is the key in the store.
pub record Node (C : Type 0) : Type 0 where
  pub expiry_tick : ℕ
  pub cb : C
  pub canceled : Bool

pub record Wheel (C : Type 0) : Type 0 where
  pub now_tick : ℕ
  pub remainder_ms : ℕ
  pub next_id : ℕ
  pub l0 : List (List ℕ)
  pub l1 : List (List ℕ)
  pub alive : List ℕ
  pub nodes : Map (Node C)

abbrev pub slot : List (List ℕ) → ℕ → List ℕ
slot l i = get_or l i []

abbrev pub push_slot : List (List ℕ) → ℕ → ℕ → List (List ℕ)
push_slot l i id = set l i (slot l i ++ (id ∷ []))

-- At least one tick.
unfoldable pub ticks_of : ℕ → ℕ
ticks_of delay_ms =
    let ticks = (delay_ms + tick_ms - 1) / tick_ms in if ticks == 0 then 1 else ticks

module _ {C : Type 0} where
  unfoldable pub new : Wheel C
  new = record {
    now_tick = 0;
    remainder_ms = 0;
    next_id = 1;
    l0 = replicate slots [];
    l1 = replicate slots [];
    alive = [];
    nodes = [];
  }

  -- The body of `place` for the node `n` with the id `id`. A node too far for the second level is cut
  -- down to the farthest slot.
  unfoldable pub place_node : Wheel C → ℕ → Node C → Wheel C
  place_node w id n =
      let far = w.now_tick + slots * slots - 1 in
      let expiry =
        if leb (slots * slots) (n.expiry_tick - w.now_tick) then far else n.expiry_tick in
      if ltb (n.expiry_tick - w.now_tick) slots
      then record w { l0 = push_slot w.l0 (n.expiry_tick % slots) id }
      else record w {
        l1 = push_slot w.l1 (expiry / slots % slots) id;
        nodes = Map.insert id (record n { expiry_tick = expiry }) w.nodes;
      }

  -- An id without a node does not occur.
  abbrev pub place_found : Wheel C → ℕ → Option (Node C) → Wheel C
  place_found w id none = w
  place_found w id (some n) = place_node w id n

  unfoldable pub place : Wheel C → ℕ → Wheel C
  unfolding place_node
  place w id = place_found w id (Map.lookup id w.nodes)

  -- `add` returns the id.
  unfoldable pub add : Wheel C → ℕ → C → Wheel C × ℕ
  add w delay_ms cb =
      let node : Node C = record {
        expiry_tick = w.now_tick + ticks_of delay_ms;
        cb = cb;
        canceled = false;
      } in
      let w' : Wheel C = record w {
        next_id = w.next_id + 1;
        alive = IdSet.insert w.next_id w.alive;
        nodes = Map.insert w.next_id node w.nodes;
      } in
      (place w' w.next_id, w.next_id)

  abbrev pub mark : Option (Node C) → ℕ → Map (Node C) → Map (Node C)
  mark none id m = m
  mark (some n) id m = Map.insert id (record n { canceled = true }) m

  -- The slot keeps the id: the node is skipped when its slot fires.
  unfoldable pub cancel : Wheel C → ℕ → Wheel C
  cancel w id =
      if IdSet.mem id w.alive
      then record w {
        alive = IdSet.erase id w.alive;
        nodes = mark (Map.lookup id w.nodes) id w.nodes;
      }
      else w

  abbrev pub is_canceled : Option (Node C) → Bool
  is_canceled none = true
  is_canceled (some n) = n.canceled

  -- The loop of `advance` over a slot of the second level that comes down.
  unfoldable pub place_all : List ℕ → Wheel C → Wheel C
  place_all [] w = w
  place_all (id ∷ ids) w =
      place_all ids (if is_canceled (Map.lookup id w.nodes) then w else place w id)

  unfoldable pub cascade : Wheel C → Wheel C
  cascade w =
      let s = w.now_tick / slots % slots in
      if w.now_tick % slots == 0
      then place_all (slot w.l1 s) (record w { l1 = set w.l1 s [] })
      else w

  module _ {E : Type 0} (run : C → Wheel C × E → Wheel C × E) where
    abbrev pub fire_node : ℕ → Option (Node C) → Wheel C × E → Wheel C × E
    fire_node id none s = s
    fire_node id (some n) (w, e) =
        if n.canceled then (w, e) else run n.cb (record w { alive = IdSet.erase id w.alive }, e)

    -- The loop of `fireSlot`: whether a node was canceled is read when its turn comes.
    unfoldable pub fire_all : List ℕ → Wheel C × E → Wheel C × E
    fire_all [] s = s
    fire_all (id ∷ ids) s = fire_all ids (fire_node id (Map.lookup id s.0.nodes) s)

    -- `fireSlot(l0_[i])`: the slot is emptied first.
    unfoldable pub fire_slot : ℕ → Wheel C × E → Wheel C × E
    fire_slot i (w, e) = fire_all (slot w.l0 i) (record w { l0 = set w.l0 i [] }, e)

    -- One round of the loop of `advance`.
    unfoldable pub tick : Wheel C × E → Wheel C × E
    tick (w, e) =
        let w' = cascade (record w { now_tick = w.now_tick + 1 }) in
        fire_slot (w'.now_tick % slots) (w', e)

    unfoldable pub ticks : ℕ → Wheel C × E → Wheel C × E
    ticks zero s = s
    ticks (suc n) s = ticks n (tick s)

    unfoldable pub advance : ℕ → Wheel C × E → Wheel C × E
    advance elapsed_ms (w, e) =
        let ms = w.remainder_ms + elapsed_ms in
        ticks (ms / tick_ms) (record w { remainder_ms = ms % tick_ms }, e)
