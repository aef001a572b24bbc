-- ===== src/Server/Tests.antt =====
-- net/TcpServer.cc and net/Acceptor.cc: three connections on two IO loops.
use my_game_server.Base.{true, false, List, [], ◌∷◌, ◌≡◌, refl, arith}
use my_game_server.Base.Map.{has, lookup, insert, erase}
use my_game_server.Lobby.Defs.{get_next_loop}
use my_game_server.Server.{Op, accepts, closes, runs, new_server, run, loop_of}
use my_game_server.Server.Accounts.{Balanced}
use my_game_server.Server.Settled.{run-new-Balanced, weight, drain, IsSettled, drain-IsSettled}
use my_game_server.Server.Robin.{loop_of-turns}
use my_game_server.Server.Accept.{conn, aborted, handle_read, handle_read-serves}

-- The second connection closes before the first is established; the third waits.
abbrev steps : List Op
steps = accepts ∷ accepts ∷ runs 2 ∷ closes 2 ∷ runs 1 ∷ accepts ∷ runs 0 ∷ []

books_run : Balanced 2 (run steps (new_server 2))
books_run = run-new-Balanced 2 2 steps

drain-IsSettled_example :
    let s' = drain (weight (run steps (new_server 2)).pending) (run steps (new_server 2)) in
    (s'.pending ≡ []) × IsSettled 2 s'
drain-IsSettled_example = drain-IsSettled 2 2 steps

loop_of-turns_example : loop_of 3 (run steps (new_server 2)) ≡ 1
unfolding run new_server has lookup insert get_next_loop erase
loop_of-turns_example = loop_of-turns 2 steps 2 (omega arith)

-- Connection 2 has been closed and taken off the table, and its destruction waits on its loop.
table_runs : has 2 (run steps (new_server 2)).connections ≡ false
unfolding run new_server has lookup insert get_next_loop erase
table_runs = refl

-- An aborted connection leaves the one behind it in the queue.
queue_runs :
    let a = handle_read true (conn 7 ∷ conn 8 ∷ aborted ∷ conn 9 ∷ []) (new_server 2) in
    (a.server ≡ run (accepts ∷ accepts ∷ []) (new_server 2))
    × (a.shut ≡ [])
    × (a.queue ≡ conn 9 ∷ [])
queue_runs = handle_read-serves true (conn 7 ∷ conn 8 ∷ aborted ∷ conn 9 ∷ []) (new_server 2)
