-- ===== src/Thread/Ends.antt =====
-- net/EventLoop.cc and net/EventLoopThread.cc: a `quit` that finds the loop running ends the thread.
use my_game_server.Base.{ℕ, ◌+◌, ◌<◌, ◌≤◌, Bool, true, false, ◌≡◌, ◌⊎◌, inl, inr, refl, arith}
use my_game_server.Thread.{
  Stage, unborn, building, publishing, entering, testing, polling, working, leaving, gone, Owner,
  made, awaiting, started, deciding, waking, unlocking, joining, finished, System, set_quit, Move,
  starts, builds, publishes, returns, enters, goes_on, wakes, times_out, works, stops, clears,
  locks, sets, skips, writes, unlocks, joins, Run, here, next,
}

-- How many moves the thread still has, once it was told, and the destructor.
abbrev ahead : Stage → ℕ
ahead polling = 4
ahead working = 3
ahead testing = 2
ahead leaving = 1
ahead _ = 0

abbrev to_do : Owner → ℕ
to_do waking = 3
to_do unlocking = 2
to_do joining = 1
to_do _ = 0

abbrev told : Owner → Bool
told waking = true
told unlocking = true
told joining = true
told finished = true
told _ = false

abbrev began : Stage → Bool
began testing = true
began polling = true
began working = true
began leaving = true
began gone = true
began _ = false

abbrev keeps_lock : Owner → Bool
keeps_lock waking = true
keeps_lock unlocking = true
keeps_lock _ = false

record IsEnding (s : System) : Type 0 where
  set : s.quit ≡ true
  past : began s.stage ≡ true
  owner : told s.owner ≡ true
  lock : s.locked ≡ keeps_lock s.owner
  wakeup : s.stage ≡ polling → (s.owner ≡ waking) ⊎ (0 < s.counter)

abbrev measure : System → ℕ
measure s = ahead s.stage + to_do s.owner

Move-IsEnding : {s t : System} → Move s t → IsEnding s → IsEnding t × (measure t < measure s)
Move-IsEnding (starts e) h = ground (arith, e, h.owner)
Move-IsEnding (builds e) h = ground (arith, e, h.past)
Move-IsEnding (publishes e f) h = ground (arith, e, h.past)
Move-IsEnding (returns e f) h = ground (arith, e, h.owner)
Move-IsEnding (enters e) h = ground (arith, e, h.past)
Move-IsEnding (goes_on e f) h = ground (arith, e, f, h.set)
Move-IsEnding (wakes e f) h = ground (arith, e)
Move-IsEnding (times_out e) h = ground (arith, e)
Move-IsEnding (works e) h = ground (arith, e)
Move-IsEnding (stops e f) h = ground (arith, e, f)
Move-IsEnding (clears e f) h = ground (arith, e)
Move-IsEnding (locks e) h = ground (arith, e, h.owner)
Move-IsEnding (sets e f) h = ground (arith, e, h.owner)
Move-IsEnding (skips e f) h = ground (arith, e, h.owner)
Move-IsEnding (writes e) h = ground (arith, e)
Move-IsEnding (unlocks e) h = ground (arith, e)
Move-IsEnding (joins e f) h = ground (arith, e)

-- Whoever has something left to do can do it.
IsEnding-progress : (s : System) → IsEnding s → (s.owner ≡ finished) ⊎ ((t : System) × Move s t)
IsEnding-progress s h = by_stage s.stage refl
  where
    release :
        (o : Owner)
        → s.owner ≡ o
        → s.stage ≡ gone
        → (s.owner ≡ finished) ⊎ ((t : System) × Move s t)
    release waking e g = inr (_, writes e)
    release unlocking e g = inr (_, unlocks e)
    release joining e g = inr (_, joins e g)
    release finished e g = inl e
    release made e g = absurd (ground (arith, e, h.owner))
    release awaiting e g = absurd (ground (arith, e, h.owner))
    release started e g = absurd (ground (arith, e, h.owner))
    release deciding e g = absurd (ground (arith, e, h.owner))

    leave :
        (o : Owner)
        → s.owner ≡ o
        → s.stage ≡ leaving
        → (s.owner ≡ finished) ⊎ ((t : System) × Move s t)
    leave waking e g = inr (_, writes e)
    leave unlocking e g = inr (_, unlocks e)
    leave joining e g = inr (_, clears g (ground (arith, e, h.lock)))
    leave finished e g = inl e
    leave made e g = absurd (ground (arith, e, h.owner))
    leave awaiting e g = absurd (ground (arith, e, h.owner))
    leave started e g = absurd (ground (arith, e, h.owner))
    leave deciding e g = absurd (ground (arith, e, h.owner))

    wake :
        s.stage ≡ polling
        → (s.owner ≡ waking) ⊎ (0 < s.counter)
        → (s.owner ≡ finished) ⊎ ((t : System) × Move s t)
    wake e (inl w) = inr (_, writes w)
    wake e (inr c) = inr (_, wakes e c)

    by_stage : (g : Stage) → s.stage ≡ g → (s.owner ≡ finished) ⊎ ((t : System) × Move s t)
    by_stage testing e = inr (_, stops e h.set)
    by_stage polling e = wake e (h.wakeup e)
    by_stage working e = inr (_, works e)
    by_stage leaving e = leave s.owner refl e
    by_stage gone e = release s.owner refl e
    by_stage unborn e = absurd (ground (arith, e, h.past))
    by_stage building e = absurd (ground (arith, e, h.past))
    by_stage publishing e = absurd (ground (arith, e, h.past))
    by_stage entering e = absurd (ground (arith, e, h.past))

Run-IsEnding :
    {s : System} {n : ℕ} {t : System}
    → Run s n t
    → IsEnding s
    → IsEnding t × (measure t + n ≤ measure s)
Run-IsEnding here h = (h, omega arith)
Run-IsEnding (next r m) h =
    let (k, le) = Run-IsEnding r h in let (k', lt) = Move-IsEnding m k in (k', omega arith)

-- The destructor sets `quit_` when the thread is inside `loop()`, holding the mutex as it does. From
-- there at most seven moves of both are left, whichever they take in whichever order, and as long as the
-- destructor has not finished one of them can move, also if `poll` never times out and nothing else wakes
-- it.
pub set_quit-ends :
    (s : System) {n : ℕ} {t : System}
    → s.owner ≡ deciding
    → s.locked ≡ true
    → (s.stage ≡ testing) ⊎ ((s.stage ≡ polling) ⊎ (s.stage ≡ working))
    → Run (set_quit s) n t
    → (n ≤ 7) × ((t.owner ≡ finished) ⊎ ((u : System) × Move t u))
set_quit-ends s e l g r =
    let (k, le) = Run-IsEnding r start in (omega (arith, le, bound), IsEnding-progress _ k)
  where
    start : IsEnding (set_quit s)
    start = ground (arith, e, l, g)

    bound : measure (set_quit s) ≤ 7
    bound = ground (arith, g)
