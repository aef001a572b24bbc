-- ===== src/Thread/Alive.antt =====
-- net/EventLoopThread.cc: the loop that the destructor stops still exists.
use my_game_server.Base.{ℕ, Bool, true, false, ◌≡◌, arith}
use my_game_server.Thread.{
  Stage, unborn, building, publishing, entering, testing, polling, working, leaving, gone, Owner,
  made, awaiting, started, deciding, waking, unlocking, joining, finished, System, fresh, Move,
  starts, builds, publishes, returns, enters, goes_on, wakes, times_out, works, stops, clears,
  locks, sets, skips, writes, unlocks, joins, Run, here, next,
}

-- Between its construction and the end of `threadFunc`, with `loop_` set.
abbrev pub is_shown : Stage → Bool
is_shown unborn = false
is_shown building = false
is_shown publishing = false
is_shown entering = true
is_shown testing = true
is_shown polling = true
is_shown working = true
is_shown leaving = true
is_shown gone = false

abbrev holds_lock : Owner → Bool
holds_lock made = false
holds_lock awaiting = false
holds_lock started = false
holds_lock deciding = true
holds_lock waking = true
holds_lock unlocking = true
holds_lock joining = false
holds_lock finished = false

abbrev is_young : Owner → Bool
is_young made = true
is_young _ = false

-- `loop_` is set exactly while there is a loop behind it, the mutex is held in the destructor only, and
-- while `quit` runs `loop_` is set.
pub record IsGuarded (s : System) : Type 0 where
  pub shown : s.pointer ≡ is_shown s.stage
  pub held : s.locked ≡ holds_lock s.owner
  pub quits : s.owner ≡ waking → s.pointer ≡ true
  pub young : s.owner ≡ made → s.stage ≡ unborn

Move-IsGuarded : {s t : System} → Move s t → IsGuarded s → IsGuarded t
Move-IsGuarded (starts e) h = ground (arith, e, h.young)
Move-IsGuarded (builds e) h = ground (arith, e, h.young)
Move-IsGuarded (publishes e f) h = ground (arith, e, f, h.young)
Move-IsGuarded (returns e f) h = ground (arith, e, f, h.young)
Move-IsGuarded (enters e) h = ground (arith, e)
Move-IsGuarded (goes_on e f) h = ground (arith, e, f)
Move-IsGuarded (wakes e f) h = ground (arith, e)
Move-IsGuarded (times_out e) h = ground (arith, e)
Move-IsGuarded (works e) h = ground (arith, e)
Move-IsGuarded (stops e f) h = ground (arith, e)
Move-IsGuarded (clears e f) h = ground (arith, e)
Move-IsGuarded (locks e) h = ground (arith, e)
Move-IsGuarded (sets e f) h = ground (arith, e)
Move-IsGuarded (skips e f) h = ground (arith, e)
Move-IsGuarded (writes e) h = ground (arith, e)
Move-IsGuarded (unlocks e) h = ground (arith, e)
Move-IsGuarded (joins e f) h = ground (arith, e)

Run-IsGuarded : {s : System} {n : ℕ} {t : System} → Run s n t → IsGuarded s → IsGuarded t
Run-IsGuarded here h = h
Run-IsGuarded (next r m) h = Move-IsGuarded m (Run-IsGuarded r h)

-- However the thread and the object interleave: while the destructor is inside `quit`, the loop that it
-- was called on is there, between `loop_ = &loop` and the return of `threadFunc`, and `loop_` is set.
pub Run-alive :
    {n : ℕ} {s : System}
    → Run fresh n s
    → s.owner ≡ waking
    → (is_shown s.stage ≡ true) × (s.pointer ≡ true)
Run-alive r e = ground (arith, Run-IsGuarded r start, e)
  where
    start : IsGuarded fresh
    start = ground arith
