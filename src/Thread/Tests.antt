-- ===== src/Thread/Tests.antt =====
-- net/EventLoopThread.cc: a thread that is ended at once, before and after it has entered its loop.
use my_game_server.Base.{true, false, ◌≡◌, ◌≢◌, refl, ◌⊎◌, inl, inr, ◌≤◌}
use my_game_server.Thread.{
  entering, testing, polling, gone, deciding, waking, finished, System, fresh, set_quit, Move,
  starts, builds, publishes, returns, locks, sets, Run, here, next,
}
use my_game_server.Thread.Alive.{is_shown, Run-alive}
use my_game_server.Thread.Lost.{entered-IsLost}
use my_game_server.Thread.Ends.{set_quit-ends}

abbrev early : System
early = record {
  stage = entering;
  owner = waking;
  pointer = true;
  locked = true;
  quit = true;
  counter = 0;
}

-- `startLoop` returns as soon as `loop_` is set, and the destructor is called before `loop()`.
early_run : Run fresh 6 early
early_run =
    next
      (next
        (next (next (next (next here (starts refl)) (builds refl)) (publishes refl refl))
          (returns refl refl))
        (locks refl))
      (sets refl refl)

abbrev lost : System
lost = record early { stage = testing; quit = false }

Run-alive_example : (is_shown early.stage ≡ true) × (early.pointer ≡ true)
Run-alive_example = Run-alive early_run refl

entered-IsLost_example : (lost.owner ≢ finished) × (lost.stage ≢ gone)
entered-IsLost_example = entered-IsLost early refl refl here

abbrev late : System
late = record {
  stage = polling;
  owner = deciding;
  pointer = true;
  locked = true;
  quit = false;
  counter = 0;
}

set_quit-ends_example :
    (0 ≤ 7) × (((set_quit late).owner ≡ finished) ⊎ ((u : System) × Move (set_quit late) u))
set_quit-ends_example = set_quit-ends late refl refl (inr (inl refl)) here
