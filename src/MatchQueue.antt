-- ===== src/MatchQueue.antt =====
-- game/MatchQueue.h: FIFO of the players who wait for an opponent, with lazy removal.
-- `MatchQueue.Line` reads a queue as the players in the order in which it serves them.
pub mod Line
pub mod Serve
pub mod Requeue
pub mod Members
mod Tests
use my_game_server.Base.{
  ℕ, ltb, Bool, true, false, if◌then◌else◌, List, [], ◌∷◌, ◌++◌, Option, none, some, length,
}
use my_game_server.Base.IdSet.{mem}
use my_game_server.Base.IdSet

pub record MatchQueue : Type 0 where
  pub order : List ℕ
  pub waiting : List ℕ

abbrev pub empty : MatchQueue
empty = record { order = []; waiting = [] }

-- The flag is the result of `push`.
unfoldable pub push : MatchQueue → ℕ → MatchQueue × Bool
push q id =
    if mem id q.waiting
    then (q, false)
    else (record { order = q.order ++ (id ∷ []); waiting = IdSet.insert id q.waiting }, true)

unfoldable pub remove : MatchQueue → ℕ → MatchQueue
remove q id = record q { waiting = IdSet.erase id q.waiting }

unfoldable pub contains : MatchQueue → ℕ → Bool
contains q id = mem id q.waiting

-- The loop of `compact` over the deque.
unfoldable pub drop_stale : List ℕ → List ℕ → List ℕ
drop_stale waiting [] = []
drop_stale waiting (x ∷ xs) = if mem x waiting then x ∷ xs else drop_stale waiting xs

unfoldable pub compact : MatchQueue → MatchQueue
unfolding drop_stale
compact q = record q { order = drop_stale q.waiting q.order }

-- `order_.front()` and `pop_front()`; `none` where the deque is empty, which C++ leaves undefined.
unfoldable pub take_head : MatchQueue → List ℕ → Option (ℕ × MatchQueue)
take_head q [] = none
take_head q (x ∷ xs) = some (x, record { order = xs; waiting = IdSet.erase x q.waiting })

unfoldable pub take_front : MatchQueue → Option (ℕ × MatchQueue)
unfolding take_head compact
take_front q = let c = compact q in take_head c c.order

abbrev pub take_second : ℕ → Option (ℕ × MatchQueue) → Option (Option (ℕ × ℕ) × MatchQueue)
take_second a none = none
take_second a (some (b, q)) = some (some (a, b), q)

abbrev pub take_both : Option (ℕ × MatchQueue) → Option (Option (ℕ × ℕ) × MatchQueue)
take_both none = none
take_both (some (a, q)) = take_second a (take_front q)

-- The inner option is what `popPair` returns; the outer is `none` where it would read an empty deque.
unfoldable pub pop_pair : MatchQueue → Option (Option (ℕ × ℕ) × MatchQueue)
unfolding compact take_front
pop_pair q =
    let c = compact q in
    if ltb (length c.waiting) 2 then some (none, c) else take_both (take_front c)

-- What the lobby asks of the queue.
pub data Op : Type 0 where
  pushes removes : ℕ → Op
  pops : Op

abbrev pub after_pop : Option (Option (ℕ × ℕ) × MatchQueue) → Option MatchQueue
after_pop none = none
after_pop (some (pair, q)) = some q

unfoldable pub step : MatchQueue → Op → Option MatchQueue
step q (pushes id) = some (push q id).0
step q (removes id) = some (remove q id)
step q pops = after_pop (pop_pair q)

abbrev pub run_rest : Option MatchQueue → (MatchQueue → Option MatchQueue) → Option MatchQueue
run_rest none k = none
run_rest (some q) k = k q

unfoldable pub run : List Op → MatchQueue → Option MatchQueue
run [] q = some q
run (o ∷ os) q = run_rest (step q o) (run os)
