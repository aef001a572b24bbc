-- ===== src/Thread/Lost.antt =====
-- net/EventLoop.cc and net/EventLoopThread.cc: a `quit` that comes before `loop()` is forgotten.
use my_game_server.Base.{ℕ, Bool, true, false, ◌≡◌, ◌≢◌, arith}
use my_game_server.Thread.{
  Stage, entering, testing, polling, working, gone, Owner, waking, unlocking, joining, finished,
  System, Move, starts, builds, publishes, returns, enters, goes_on, wakes, times_out, works, stops,
  clears, locks, sets, skips, writes, unlocks, joins, Run, here, next,
}

-- The destructor has set `quit_`, and then `loop()` reset it.
abbrev in_loop : Stage → Bool
in_loop testing = true
in_loop polling = true
in_loop working = true
in_loop _ = false

abbrev has_set : Owner → Bool
has_set waking = true
has_set unlocking = true
has_set joining = true
has_set _ = false

pub record IsLost (s : System) : Type 0 where
  pub forgotten : s.quit ≡ false
  pub looping : in_loop s.stage ≡ true
  pub waiting : has_set s.owner ≡ true

Move-IsLost : {s t : System} → Move s t → IsLost s → IsLost t
Move-IsLost (starts e) h = ground (arith, e, h.waiting)
Move-IsLost (builds e) h = ground (arith, e, h.looping)
Move-IsLost (publishes e f) h = ground (arith, e, h.looping)
Move-IsLost (returns e f) h = ground (arith, e, h.waiting)
Move-IsLost (enters e) h = ground (arith, e, h.looping)
Move-IsLost (goes_on e f) h = ground (arith, e)
Move-IsLost (wakes e f) h = ground (arith, e)
Move-IsLost (times_out e) h = ground (arith, e)
Move-IsLost (works e) h = ground (arith, e)
Move-IsLost (stops e f) h = ground (arith, e, f, h.forgotten)
Move-IsLost (clears e f) h = ground (arith, e, h.looping)
Move-IsLost (locks e) h = ground (arith, e, h.waiting)
Move-IsLost (sets e f) h = ground (arith, e, h.waiting)
Move-IsLost (skips e f) h = ground (arith, e, h.waiting)
Move-IsLost (writes e) h = ground (arith, e)
Move-IsLost (unlocks e) h = ground (arith, e)
Move-IsLost (joins e f) h = ground (arith, e, f, h.looping)

Run-IsLost : {s : System} {n : ℕ} {t : System} → Run s n t → IsLost s → IsLost t
Run-IsLost here h = h
Run-IsLost (next r m) h = Move-IsLost m (Run-IsLost r h)

-- The destructor sets `quit_` while the thread stands between `loop_ = &loop` and the call of `loop()`.
-- Once the thread has entered the loop, which resets `quit_`, no moves end it or the destructor.
pub entered-IsLost :
    (s : System) {n : ℕ} {t : System}
    → s.stage ≡ entering
    → has_set s.owner ≡ true
    → Run (record s { stage = testing; quit = false }) n t
    → (t.owner ≢ finished) × (t.stage ≢ gone)
entered-IsLost s e o r = never (Run-IsLost r lost)
  where
    lost : IsLost (record s { stage = testing; quit = false })
    lost = ground (arith, o)

    never : {t : System} → IsLost t → (t.owner ≢ finished) × (t.stage ≢ gone)
    never h = (λ f. ground (arith, f, h.waiting), λ f. ground (arith, f, h.looping))
