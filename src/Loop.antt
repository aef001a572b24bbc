-- ===== src/Loop.antt =====
-- net/EventLoop.h and net/EventLoop.cc: the functors that other threads queue, and the eventfd that wakes
-- the loop. A functor is its number. Threads interleave between the push under the mutex and the write to
-- the eventfd, and between the parts of a round of `loop`; a functor that queues another is such a push.
pub mod Alert
mod Tests
use my_game_server.Base.{ℕ, ◌+◌, ◌-◌, ltb, if◌then◌else◌, Bool, true, false, List, [], ◌∷◌, ◌++◌}

-- Where the loop is: in `poll`, over the active channels (and whether the eventfd is one of them), before
-- the swap in `doPendingFunctors`, and in its loop.
pub data Phase : Type 0 where
  polling swapping running : Phase
  handling : Bool → Phase

-- `counter` is that of the eventfd, `owed` the threads in `queueInLoop` that have pushed and not yet
-- written, `ran` the functors that ran.
pub record Loop : Type 0 where
  pub pending : List ℕ
  pub batch : List ℕ
  pub phase : Phase
  pub counter : ℕ
  pub owed : ℕ
  pub ran : List ℕ

abbrev pub fresh : Loop
fresh = record { pending = []; batch = []; phase = polling; counter = 0; owed = 0; ran = [] }

-- The two parts of `queueInLoop`.
unfoldable pub push_functor : ℕ → Loop → Loop
push_functor f l = record l { pending = l.pending ++ (f ∷ []); owed = l.owed + 1 }

unfoldable pub write_wakeup : Loop → Loop
write_wakeup l = if ltb 0 l.owed then record l { owed = l.owed - 1; counter = l.counter + 1 } else l

abbrev pub run_next : List ℕ → Loop → Loop
run_next [] l = record l { batch = []; phase = polling }
run_next (f ∷ fs) l = record l { ran = l.ran ++ (f ∷ []); batch = fs }

-- One move of the loop; `poll` returns with the eventfd if it is readable, and otherwise for another
-- channel or at its timeout. Reading an eventfd sets it to 0.
abbrev pub move_at : Phase → Loop → Loop
move_at polling l = record l { phase = handling (ltb 0 l.counter) }
move_at (handling true) l = record l { phase = swapping; counter = 0 }
move_at (handling false) l = record l { phase = swapping }
move_at swapping l = record l { phase = running; batch = l.pending; pending = l.batch }
move_at running l = run_next l.batch l

unfoldable pub move : Loop → Loop
move l = move_at l.phase l

pub data Op : Type 0 where
  pushes : ℕ → Op
  writes moves : Op

unfoldable pub step : Op → Loop → Loop
step (pushes f) l = push_functor f l
step writes l = write_wakeup l
step moves l = move l

unfoldable pub run : List Op → Loop → Loop
run [] l = l
run (o ∷ os) l = run os (step o l)

unfoldable pub pushed : List Op → List ℕ
pushed [] = []
pushed (pushes f ∷ os) = f ∷ pushed os
pushed (writes ∷ os) = pushed os
pushed (moves ∷ os) = pushed os
