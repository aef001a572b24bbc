-- ===== src/Writer/Awake.antt =====
-- storage/AsyncWriter.cc: the condition variable, with the storage thread between the test of its
-- condition and the next notification.
use my_game_server.Base.{
  ℕ, ◌+◌, ◌-◌, ◌≤◌, ◌==◌, if◌then◌else◌, Bool, true, false, List, [], ◌∷◌, ◌++◌, arith,
}
use my_game_server.Writer.{
  Writer, Phase, waiting, asleep, working, exited, woken, fresh, enqueue, request_stop, notify_one,
  move_thread, thread_step, Op, enqueues, stops, notifies, rouses, moves, step, run,
}

-- If the thread sleeps, there is no reason for it to go on, or a notification is still to come.
abbrev pub IsAwaited : Phase → List ℕ → Bool → ℕ → Type 0
IsAwaited asleep [] false n = Unit
IsAwaited asleep [] true n = 1 ≤ n
IsAwaited asleep (t ∷ ts) s n = 1 ≤ n
IsAwaited waiting f s n = Unit
IsAwaited working f s n = Unit
IsAwaited exited f s n = Unit

abbrev pub IsAwake : Writer → Type 0
IsAwake w = IsAwaited w.phase w.front w.stop w.owed

owed-IsAwaited : (p : Phase) (f : List ℕ) (s : Bool) (n : ℕ) → 1 ≤ n → IsAwaited p f s n
owed-IsAwaited asleep [] false n h = tt
owed-IsAwaited asleep [] true n h = h
owed-IsAwaited asleep (t ∷ ts) s n h = h
owed-IsAwaited waiting f s n h = tt
owed-IsAwaited working f s n h = tt
owed-IsAwaited exited f s n h = tt

woken-IsAwaited : (p : Phase) (f : List ℕ) (s : Bool) (n : ℕ) → IsAwaited (woken p) f s n
woken-IsAwaited waiting f s n = tt
woken-IsAwaited asleep f s n = tt
woken-IsAwaited working f s n = tt
woken-IsAwaited exited f s n = tt

moved-IsAwake :
    (p : Phase) (b f : List ℕ) (s : Bool) (r : List ℕ) (n : ℕ)
    → IsAwaited p f s n
    → IsAwake
        (move_thread p (record { front = f; stop = s; batch = b; phase = p; ran = r; owed = n }))
moved-IsAwake waiting b [] true r n h = tt
moved-IsAwake waiting b [] false r n h = tt
moved-IsAwake waiting b (t ∷ ts) s r n h = tt
moved-IsAwake asleep b f s r n h = h
moved-IsAwake working [] f s r n h = tt
moved-IsAwake working (t ∷ ts) f s r n h = tt
moved-IsAwake exited b f s r n h = tt

step-IsAwake : (o : Op) (w : Writer) → IsAwake w → IsAwake (step o w)
unfolding step enqueue request_stop notify_one thread_step
step-IsAwake (enqueues t) w h =
    owed-IsAwaited w.phase (w.front ++ (t ∷ [])) w.stop (w.owed + 1) (omega arith)
step-IsAwake stops w h = owed-IsAwaited w.phase w.front true (w.owed + 1) (omega arith)
step-IsAwake notifies w h = either (w.owed == 0)
  where
    either : (b : Bool) → IsAwake (if b then w else notify_one w)
    either true = h
    either false = woken-IsAwaited w.phase w.front w.stop (w.owed - 1)
step-IsAwake rouses w h = woken-IsAwaited w.phase w.front w.stop w.owed
step-IsAwake moves w h = moved-IsAwake w.phase w.batch w.front w.stop w.ran w.owed h

run-IsAwake : (os : List Op) (w : Writer) → IsAwake w → IsAwake (run os w)
unfolding run
run-IsAwake [] w h = h
run-IsAwake (o ∷ os) w h = run-IsAwake os (step o w) (step-IsAwake o w h)

-- No wakeup is lost, under any interleaving of the threads: while the storage thread sleeps although a task
-- waits or the destructor has set its flag, a call of `notify_one` is still to come.
pub run-fresh-IsAwake : (os : List Op) → IsAwake (run os fresh)
run-fresh-IsAwake os = run-IsAwake os fresh tt
