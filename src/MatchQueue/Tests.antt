-- ===== src/MatchQueue/Tests.antt =====
-- game/MatchQueue.h at concrete queues.
use my_game_server.Base.{true, [], ◌∷◌, ◌++◌, some, ◌≡◌, refl, length, arith}
use my_game_server.Base.IdSet.{mem, erase}
use my_game_server.Base.IdSet
use my_game_server.MatchQueue.{
  MatchQueue, empty, push, remove, pop_pair, pushes, removes, pops, step, run,
}
use my_game_server.MatchQueue.Line.{line, IsValid}
use my_game_server.MatchQueue.Serve.{serve, pop_pair_refines, run-empty-IsValid}
use my_game_server.MatchQueue.Requeue.{line-push_fresh, line-push-remove}

-- 5 left while 6 waited, and 7 came.
abbrev queue : MatchQueue
queue = record { order = 5 ∷ 6 ∷ 7 ∷ []; waiting = 7 ∷ 6 ∷ [] }

queue-IsValid : IsValid queue
unfolding mem
queue-IsValid = record { distinct = (refl, (refl, tt)); placed = λ id h. ground arith }

pop_runs : pop_pair queue ≡ some (some (6, 7), empty)
unfolding pop_pair mem erase
pop_runs = refl

-- Player 6 is pushed first, is removed and comes back behind 7, and is served before 7 all the same.
requeue_runs :
    run (pushes 6 ∷ pushes 7 ∷ removes 6 ∷ pushes 6 ∷ []) empty
    ≡ some (record { order = 6 ∷ 7 ∷ 6 ∷ []; waiting = 6 ∷ 7 ∷ [] })
unfolding run step push remove mem erase IdSet.insert
requeue_runs = refl

pop_pair_refines_example :
    (q' : MatchQueue) × (pop_pair queue ≡ some ((serve (line queue)).0, q'))
    × (line q' ≡ (serve (line queue)).1)
    × IsValid q'
pop_pair_refines_example = pop_pair_refines queue queue-IsValid

run-empty-IsValid_example :
    (q : MatchQueue) × (run (pushes 6 ∷ pushes 7 ∷ removes 6 ∷ pushes 6 ∷ pops ∷ pops ∷ []) empty
      ≡ some q)
    × IsValid q
    × (length (line q) ≡ length q.waiting)
run-empty-IsValid_example =
    run-empty-IsValid (pushes 6 ∷ pushes 7 ∷ removes 6 ∷ pushes 6 ∷ pops ∷ pops ∷ [])

line_runs : ((push queue 8).1 ≡ true) × (line (push queue 8).0 ≡ line queue ++ (8 ∷ []))
unfolding mem
line_runs = line-push_fresh queue 8 refl refl

line-push-remove_example :
    ((push (remove queue 6) 6).1 ≡ true) × (line (push (remove queue 6) 6).0 ≡ line queue)
unfolding mem
line-push-remove_example = line-push-remove queue 6 queue-IsValid refl
