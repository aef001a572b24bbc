-- ===== src/Thread.antt =====
-- net/EventLoopThread.h, net/EventLoopThread.cc and the quitting of net/EventLoop.cc: a thread that runs a
-- loop on its stack, and the object that starts it and ends it. The two interleave at the accesses to
-- `loop_`, `quit_` and the eventfd; what stands under the mutex in `threadFunc` is one move, and the
-- destructor holds the mutex over several.
pub mod Alive
pub mod Lost
pub mod Ends
mod Tests
use my_game_server.Base.{ℕ, ◌+◌, ◌<◌, Bool, true, false, ◌≡◌}

-- Where `threadFunc` is: not started, building the loop, about to set `loop_`, about to call `loop()`, at
-- its test of `quit_`, in `poll`, at work on events and functors, behind `loop()`, returned with the loop
-- destroyed.
pub data Stage : Type 0 where
  unborn building publishing entering testing polling working leaving gone : Stage

-- Where the object is: constructed, in the wait of `startLoop`, started; in the destructor with the mutex
-- at the test of `loop_`, between the two parts of `quit`, at the end of the block; in `join`; finished.
pub data Owner : Type 0 where
  made awaiting started deciding waking unlocking joining finished : Owner

-- `pointer` is whether `loop_` is set, `locked` whether the destructor holds the mutex, `counter` that of
-- the eventfd.
pub record System : Type 0 where
  pub stage : Stage
  pub owner : Owner
  pub pointer : Bool
  pub locked : Bool
  pub quit : Bool
  pub counter : ℕ

abbrev pub fresh : System
fresh = record {
  stage = unborn;
  owner = made;
  pointer = false;
  locked = false;
  quit = false;
  counter = 0;
}

-- The first part of `EventLoop::quit`, called by the destructor.
abbrev pub set_quit : System → System
set_quit s = record s { quit = true; owner = waking }

-- The moves of both. `poll` returns because the eventfd is readable, which is then read, or because of
-- another channel or its timeout.
pub data Move (s : System) : System → Type 0 where
  starts : s.owner ≡ made → Move s (record s { owner = awaiting; stage = building })
  builds : s.stage ≡ building → Move s (record s { stage = publishing })
  publishes :
      s.stage ≡ publishing
      → s.locked ≡ false
      → Move s (record s { stage = entering; pointer = true })
  returns : s.owner ≡ awaiting → s.pointer ≡ true → Move s (record s { owner = started })
  enters : s.stage ≡ entering → Move s (record s { stage = testing; quit = false })
  goes_on : s.stage ≡ testing → s.quit ≡ false → Move s (record s { stage = polling })
  wakes : s.stage ≡ polling → 0 < s.counter → Move s (record s { stage = working; counter = 0 })
  times_out : s.stage ≡ polling → Move s (record s { stage = working })
  works : s.stage ≡ working → Move s (record s { stage = testing })
  stops : s.stage ≡ testing → s.quit ≡ true → Move s (record s { stage = leaving })
  clears :
      s.stage ≡ leaving → s.locked ≡ false → Move s (record s { stage = gone; pointer = false })
  locks : s.owner ≡ started → Move s (record s { owner = deciding; locked = true })
  sets : s.owner ≡ deciding → s.pointer ≡ true → Move s (set_quit s)
  skips : s.owner ≡ deciding → s.pointer ≡ false → Move s (record s { owner = unlocking })
  writes : s.owner ≡ waking → Move s (record s { owner = unlocking; counter = s.counter + 1 })
  unlocks : s.owner ≡ unlocking → Move s (record s { owner = joining; locked = false })
  joins : s.owner ≡ joining → s.stage ≡ gone → Move s (record s { owner = finished })

-- A run of so many moves.
pub data Run (s : System) : ℕ → System → Type 0 where
  here : Run s 0 s
  next : {n : ℕ} {t u : System} → Run s n t → Move t u → Run s (n + 1) u
