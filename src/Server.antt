-- ===== src/Server.antt =====
-- net/TcpServer.h, net/TcpServer.cc, net/Acceptor.h and net/Acceptor.cc: the table of connections on the
-- base loop, and the tasks that travel between it and the IO loops. A loop is a number, 0 for the base
-- loop. A connection is its number: its name is the server's name, a dash and that number. What a loop
-- runs is one step; the steps of different loops interleave in any order. The functors that wait stand in
-- one list in the order in which they were queued, each with its loop: a loop runs its first one.
pub mod Accounts
pub mod Settled
pub mod Robin
pub mod Accept
mod Tests
use my_game_server.Base.{
  ℕ, suc, ◌+◌, ◌==◌, ltb, if◌then◌else◌, Bool, true, false, ◌&&◌, not, List, [], ◌∷◌, ◌++◌, Option,
  none, some,
}
use my_game_server.Base.Map
use my_game_server.Base.Map.{Map}
use my_game_server.Lobby.Defs.{Pool, get_next_loop}

-- The functors that are queued: `connectEstablished`, the body of `removeConnection`,
-- `connectDestroyed`.
pub data Task : Type 0 where
  establish remove destroy : ℕ → Task

-- What has run: `connectEstablished`, `handleClose`, `connectDestroyed`.
pub data Event : Type 0 where
  established closed destroyed : ℕ → Event

-- `connections` holds the loop of each connection; `made` the loops of all that were ever made, in the
-- place of `getLoop()` of a connection that is no longer in the table.
pub record Server : Type 0 where
  pub next_conn_id : ℕ
  pub connections : Map ℕ
  pub made : Map ℕ
  pub pool : Pool
  pub pending : List (ℕ × Task)
  pub log : List Event

-- The constructor and `start`: the pool starts its threads.
unfoldable pub new_server : ℕ → Server
new_server threads = record {
  next_conn_id = 1;
  connections = [];
  made = [];
  pool = record { loops = threads; next = 0 };
  pending = [];
  log = [];
}

abbrev pub note : Event → Server → Server
note e s = record s { log = s.log ++ (e ∷ []) }

-- `queueInLoop`.
unfoldable pub queue_in_loop : ℕ → Task → Server → Server
queue_in_loop loop t s = record s { pending = s.pending ++ ((loop, t) ∷ []) }

abbrev pub loop_key : Option ℕ → ℕ
loop_key none = 0
loop_key (some i) = suc i

abbrev pub or_base : Option ℕ → ℕ
or_base none = 0
or_base (some loop) = loop

-- `conn->getLoop()`.
unfoldable pub loop_of : ℕ → Server → ℕ
loop_of c s = or_base (Map.lookup c s.made)

-- What a task does on its loop.
unfoldable pub do_task : Task → Server → Server
unfolding queue_in_loop loop_of
do_task (establish c) s = note (established c) s
do_task (remove c) s =
    queue_in_loop (loop_of c s) (destroy c) (record s { connections = Map.erase c s.connections })
do_task (destroy c) s = note (destroyed c) s

-- `runInLoop`, called on the loop `here`.
unfoldable pub run_in_loop : ℕ → ℕ → Task → Server → Server
unfolding do_task queue_in_loop
run_in_loop here loop t s = if here == loop then do_task t s else queue_in_loop loop t s

-- `newConnection`, on the base loop.
unfoldable pub new_connection : Server → Server
unfolding run_in_loop
new_connection s =
    let (next, pool) = get_next_loop s.pool in
    let c = s.next_conn_id in
    run_in_loop 0 (loop_key next) (establish c) (record s {
      next_conn_id = c + 1;
      connections = Map.insert c (loop_key next) s.connections;
      made = Map.insert c (loop_key next) s.made;
      pool = pool;
    })

-- `removeConnection`, on the loop of the connection.
unfoldable pub remove_connection : ℕ → Server → Server
unfolding run_in_loop loop_of
remove_connection c s = run_in_loop (loop_of c s) 0 (remove c) s

abbrev pub same_event : Event → Event → Bool
same_event (established c) (established d) = c == d
same_event (established c) (closed d) = false
same_event (established c) (destroyed d) = false
same_event (closed c) (established d) = false
same_event (closed c) (closed d) = c == d
same_event (closed c) (destroyed d) = false
same_event (destroyed c) (established d) = false
same_event (destroyed c) (closed d) = false
same_event (destroyed c) (destroyed d) = c == d

-- How often something has run.
unfoldable pub times : Event → List Event → ℕ
times e [] = 0
times e (f ∷ es) = (if same_event e f then 1 else 0) + times e es

-- The channel of a connection reports events from `connectEstablished` on, up to `connectDestroyed`.
unfoldable pub is_open : ℕ → Server → Bool
unfolding times
is_open c s = ltb 0 (times (established c) s.log) && (times (destroyed c) s.log == 0)

-- `handleClose` with the close callback, if the connection is there to get events.
unfoldable pub close_connection : ℕ → Server → Server
unfolding remove_connection is_open
close_connection c s = if is_open c s then remove_connection c (note (closed c) s) else s

-- The first functor of a loop.
unfoldable pub front : ℕ → List (ℕ × Task) → Option Task
front loop [] = none
front loop ((l, t) ∷ ts) = if l == loop then some t else front loop ts

unfoldable pub drop_front : ℕ → List (ℕ × Task) → List (ℕ × Task)
drop_front loop [] = []
drop_front loop ((l, t) ∷ ts) = if l == loop then ts else (l, t) ∷ drop_front loop ts

abbrev pub run_front : ℕ → Option Task → Server → Server
run_front loop none s = s
run_front loop (some t) s = do_task t (record s { pending = drop_front loop s.pending })

-- A loop runs its first functor, if there is one.
unfoldable pub run_next : ℕ → Server → Server
unfolding do_task front drop_front
run_next loop s = run_front loop (front loop s.pending) s

-- The destructor, on the base loop: what the table still has is destroyed on its loop.
unfoldable pub destroy_all : Map ℕ → Server → Server
unfolding run_in_loop
destroy_all [] s = s
destroy_all ((c, loop) ∷ cs) s = destroy_all cs (run_in_loop 0 loop (destroy c) s)

pub data Op : Type 0 where
  accepts : Op
  closes runs : ℕ → Op

unfoldable pub step : Op → Server → Server
unfolding new_connection close_connection run_next
step accepts s = new_connection s
step (closes c) s = close_connection c s
step (runs loop) s = run_next loop s

unfoldable pub run : List Op → Server → Server
unfolding step
run [] s = s
run (o ∷ os) s = run os (step o s)
