-- ===== src/Writer.antt =====
-- storage/AsyncWriter.h and storage/AsyncWriter.cc: the queue of the storage thread. A task is its
-- number. The threads interleave at the points where the mutex is free, so that a step is what happens while
-- it is held, a call of `notify_one`, or one task that the storage thread runs.
pub mod Order
pub mod Flush
pub mod Awake
mod Tests
use my_game_server.Base.{
  ℕ, suc, zero, ◌+◌, ◌-◌, ◌==◌, if◌then◌else◌, Bool, true, false, List, [], ◌∷◌, ◌++◌,
}

-- Where `threadFunc` is: about to test the condition under the lock, asleep in `cond_.wait`, in the loop
-- over the batch, or at its end.
pub data Phase : Type 0 where
  waiting asleep working exited : Phase

-- `ran` is the tasks that were run, in order. `owed` counts the calls of `notify_one` that are still to
-- come: each follows a change that was made under the lock, when the lock is free again.
pub record Writer : Type 0 where
  pub front : List ℕ
  pub stop : Bool
  pub batch : List ℕ
  pub phase : Phase
  pub ran : List ℕ
  pub owed : ℕ

abbrev pub fresh : Writer
fresh = record { front = []; stop = false; batch = []; phase = waiting; ran = []; owed = 0 }

-- The part of `enqueue` under the lock.
unfoldable pub enqueue : ℕ → Writer → Writer
enqueue t w = record w { front = w.front ++ (t ∷ []); owed = w.owed + 1 }

-- The part of the destructor under the lock.
unfoldable pub request_stop : Writer → Writer
request_stop w = record w { stop = true; owed = w.owed + 1 }

-- A thread that is woken tests the condition again.
abbrev pub woken : Phase → Phase
woken waiting = waiting
woken asleep = waiting
woken working = working
woken exited = exited

-- `cond_.notify_one`, of `enqueue` and of the destructor.
unfoldable pub notify_one : Writer → Writer
notify_one w = record w { phase = woken w.phase; owed = w.owed - 1 }

-- The part of `threadFunc` under the lock; a thread that finds no reason to go on sleeps.
abbrev pub wake : List ℕ → Writer → Writer
wake [] w = if w.stop then record w { phase = exited } else record w { phase = asleep }
wake (t ∷ ts) w = record w { batch = t ∷ ts; front = w.batch; phase = working }

abbrev pub run_next : List ℕ → Writer → Writer
run_next [] w = record w { batch = []; phase = waiting }
run_next (t ∷ ts) w = record w { ran = w.ran ++ (t ∷ []); batch = ts }

abbrev pub move_thread : Phase → Writer → Writer
move_thread waiting w = wake w.front w
move_thread asleep w = w
move_thread working w = run_next w.batch w
move_thread exited w = w

-- One move of the storage thread. Asleep it has none.
unfoldable pub thread_step : Writer → Writer
thread_step w = move_thread w.phase w

unfoldable pub thread_steps : ℕ → Writer → Writer
thread_steps zero w = w
thread_steps (suc n) w = thread_steps n (thread_step w)

-- `notifies` is a call of `notify_one` that is owed, `rouses` a wakeup without one, which the condition
-- variable may also give.
pub data Op : Type 0 where
  enqueues : ℕ → Op
  stops notifies rouses moves : Op

unfoldable pub step : Op → Writer → Writer
unfolding thread_step
step (enqueues t) w = enqueue t w
step stops w = request_stop w
step notifies w = if w.owed == 0 then w else notify_one w
step rouses w = record w { phase = woken w.phase }
step moves w = thread_step w

unfoldable pub run : List Op → Writer → Writer
run [] w = w
run (o ∷ os) w = run os (step o w)

-- The tasks that a sequence of operations enqueues.
unfoldable pub enqueued : List Op → List ℕ
enqueued [] = []
enqueued (enqueues t ∷ os) = t ∷ enqueued os
enqueued (stops ∷ os) = enqueued os
enqueued (notifies ∷ os) = enqueued os
enqueued (rouses ∷ os) = enqueued os
enqueued (moves ∷ os) = enqueued os
