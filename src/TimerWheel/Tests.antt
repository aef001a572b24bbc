-- ===== src/TimerWheel/Tests.antt =====
-- timer/TimerWheel.cc at concrete wheels: callbacks are numbers, which are noted down when they run;
-- callback 9 renews itself, as the heartbeat sweep of the server does.
use my_game_server.Base.{
  ℕ, ◌+◌, ◌/◌, ◌<◌, ◌==◌, List, [], ◌∷◌, some, ◌≡◌, refl, arith, if◌then◌else◌, true, false,
  Bool-cases, inl, inr,
}
use my_game_server.Base.Map.{lookup, insert}
use my_game_server.Base.IdSet.{mem, erase}
use my_game_server.Base.IdSet
use my_game_server.TimerWheel.{
  Node, Wheel, new, add, place, ticks_of, ticks, tick, cascade, place_all, fire_slot, fire_all,
  advance, tick_ms,
}
use my_game_server.TimerWheel.Calls.{Holds}
use my_game_server.TimerWheel.Client.{Uses, done, adds}
use my_game_server.TimerWheel.Ticks.{IsReady, Uses-IsReady, new-IsReady}
use my_game_server.TimerWheel.Advance.{advance-IsReady}
use my_game_server.TimerWheel.OnTime.{add_on_time}

abbrev Log : Type 0
Log = List ℕ

abbrev note : ℕ → Wheel ℕ × Log → Wheel ℕ × Log
note c (w, log) = (if c == 9 then (add w 5000 9).0 else w, c ∷ log)

note-Uses : (Ok : ℕ → Type 0) (c : ℕ) (w : Wheel ℕ) (e : Log) → Uses Ok w (note c (w, e)).0
note-Uses Ok c w e = elim (Bool-cases (c == 9)) [
  | inl sweep ↦ rw sweep (adds w 5000 9 (done (add w 5000 9).0))
  | inr other ↦ rw other (done w)
]

-- Timers of 250 ms and of 30 s; the second comes down from the second level.
abbrev pair : Wheel ℕ
pair = (add (add new 250 7).0 30000 8).0

runs :
    ((advance note 299 (pair, [])).1 ≡ [])
    × ((advance note 300 (pair, [])).1 ≡ 7 ∷ [])
    × ((advance note 29999 (pair, [])).1 ≡ 7 ∷ [])
    × ((advance note 30000 (pair, [])).1 ≡ 8 ∷ 7 ∷ [])
unfolding new add place ticks_of advance ticks tick cascade place_all fire_slot fire_all lookup
    insert mem erase IdSet.insert
runs = (refl, refl, refl, refl)

pair-IsReady : IsReady pair
pair-IsReady =
    Uses-IsReady {Ok = λ _. Unit {0}} (adds new 250 7 (adds _ 30000 8 (done pair))) new-IsReady

-- The log holds a number.
abbrev Noted : ℕ → Log → Type 0
Noted c log = mem c log ≡ true

noted : (u : Wheel ℕ) (f : Log) → Noted 7 (note 7 (u, f)).1
unfolding mem
noted u f = refl

note-Noted : (c : ℕ) (u : Wheel ℕ) (f : Log) → Noted 7 f → Noted 7 (note c (u, f)).1
unfolding mem
note-Noted c u f h = ground arith

advance-IsReady_example :
    let w' = (advance note 29999 (pair, [])).0 in
    IsReady w'
    × (w'.now_tick ≡ pair.now_tick + (pair.remainder_ms + 29999) / tick_ms)
    × ((id : ℕ)
        → mem id w'.alive ≡ true
        → (n : Node ℕ) × (lookup id w'.nodes ≡ some n)
          × (n.canceled ≡ false)
          × (w'.now_tick < n.expiry_tick))
advance-IsReady_example =
    advance-IsReady note (λ _. Unit {0}) (note-Uses _) 29999 pair [] pair-IsReady

-- A delay of 1000 seconds, which is 10000 ticks, fires after 4095.
add_on_time_example :
    let u = (add {C = ℕ} new 1000000 7).0 in
    ((j : ℕ)
      → j < 4095
      → Holds (ticks note j (u, [])).0 1 (record { expiry_tick = 4095; cb = 7; canceled = false }))
    × Noted 7 (ticks note 4095 (u, [])).1
unfolding new ticks_of
add_on_time_example =
    add_on_time note new 1000000 7 [] (Noted 7) (note-Uses _) noted note-Noted new-IsReady
