-- ===== src/Loop/Tests.antt =====
-- net/EventLoop.cc: a functor that comes in while the loop is busy.
use my_game_server.Base.{[], ◌∷◌, List}
use my_game_server.Loop.{Op, pushes, writes, moves, fresh, run, pushed}
use my_game_server.Loop.Alert.{IsAlert, run-fresh-IsAlert}

abbrev busy : List Op
busy = pushes 1 ∷ writes ∷ moves ∷ moves ∷ moves ∷ pushes 2 ∷ moves ∷ moves ∷ writes ∷ []

run-fresh-IsAlert_example : IsAlert (run busy fresh) (pushed busy)
run-fresh-IsAlert_example = run-fresh-IsAlert busy
