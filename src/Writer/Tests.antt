-- ===== src/Writer/Tests.antt =====
-- storage/AsyncWriter.cc: a run in which the destructor comes in while a batch is being run.
use my_game_server.Base.{true, List, [], ◌∷◌, ◌≡◌, refl, arith, ◌≤◌}
use my_game_server.Writer.{
  asleep, exited, fresh, Op, enqueues, notifies, moves, run, request_stop, notify_one, enqueue,
  step, enqueued, thread_step, thread_steps,
}
use my_game_server.Writer.Flush.{flush_all}
use my_game_server.Writer.Awake.{run-fresh-IsAwake}

abbrev busy : List Op
busy = enqueues 1 ∷ moves ∷ enqueues 2 ∷ moves ∷ enqueues 3 ∷ []

busy_runs :
    ((run busy fresh).batch ≡ [])
    × ((run busy fresh).front ≡ 2 ∷ 3 ∷ [])
    × ((run busy fresh).ran ≡ 1 ∷ [])
unfolding run step enqueue thread_step
busy_runs = (refl, refl, refl)

-- The destructor finds the thread asleep, and the task of another thread not yet notified.
abbrev sleepy : List Op
sleepy = enqueues 1 ∷ moves ∷ notifies ∷ moves ∷ moves ∷ moves ∷ enqueues 2 ∷ []

sleepy_runs : (run sleepy fresh).phase ≡ asleep
unfolding run step enqueue thread_step notify_one
sleepy_runs = refl

flush_all_example :
    thread_steps 5 (notify_one (thread_steps 2 (request_stop (run sleepy fresh))))
    ≡ record { front = []; stop = true; batch = []; phase = exited; ran = 1 ∷ 2 ∷ []; owed = 1 }
unfolding run step enqueue thread_step thread_steps notify_one request_stop enqueued
flush_all_example = flush_all sleepy 2 5 (λ e. cc) (omega arith)

run-fresh-IsAwake_example : 1 ≤ (run sleepy fresh).owed
unfolding run step enqueue thread_step notify_one
run-fresh-IsAwake_example = run-fresh-IsAwake sleepy
