-- ===== src/TimerWheel/Keeps.antt =====
-- timer/TimerWheel.cc: what every callback keeps true of the owner's state, advancing the wheel keeps.
use my_game_server.Base.{
  ℕ, zero, suc, if◌then◌else◌, Bool, true, false, List, [], ◌∷◌, Option, none, some,
}
use my_game_server.Base.Map.{lookup}
use my_game_server.Base.IdSet.{erase}
use my_game_server.TimerWheel.{Node, Wheel, fire_node, fire_all, fire_slot, tick, ticks, advance}

module _ {C : Type 0} {E : Type 0} (run : C → Wheel C × E → Wheel C × E) (P : E → Type 0)
    (keeps : (c : C) (s : Wheel C × E) → P s.1 → P (run c s).1) where
  fire_node_keeps :
      (id : ℕ) (o : Option (Node C)) (s : Wheel C × E) → P s.1 → P (fire_node run id o s).1
  fire_node_keeps id none s p = p
  fire_node_keeps id (some n) (w, e) p = either n.canceled
    where
      either :
          (b : Bool)
          → P (if b then (w, e) else run n.cb (record w { alive = erase id w.alive }, e)).1
      either true = p
      either false = keeps n.cb _ p

  fire_all_keeps : (ids : List ℕ) (s : Wheel C × E) → P s.1 → P (fire_all run ids s).1
  unfolding fire_all
  fire_all_keeps [] s p = p
  fire_all_keeps (id ∷ ids) s p =
      fire_all_keeps ids _ (fire_node_keeps id (lookup id s.0.nodes) s p)

  ticks_keep : (n : ℕ) (s : Wheel C × E) → P s.1 → P (ticks run n s).1
  unfolding ticks tick fire_slot
  ticks_keep zero s p = p
  ticks_keep (suc n) (w, e) p = ticks_keep n _ (fire_all_keeps _ _ p)

  pub advance_keeps : (ms : ℕ) (s : Wheel C × E) → P s.1 → P (advance run ms s).1
  unfolding advance
  advance_keeps ms (w, e) p = ticks_keep _ _ p
