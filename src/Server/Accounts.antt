-- ===== src/Server/Accounts.antt =====
-- net/TcpServer.cc: what waits and what has run of one connection, through any steps.
use my_game_server.Base.{
  ℕ, ◌+◌, ◌<◌, ◌==◌, ltb, if◌then◌else◌, Bool, true, false, ◌&&◌, List, [], ◌∷◌, ◌++◌, some, ◌≡◌,
  sym, ap, ◌∙◌, arith, Bool-cases, Option-cases, inl, inr, if_true, if_false, subst, ==→eq,
}
use my_game_server.Base.Map.{has, has-insert, has-erase}
use my_game_server.Lobby.Defs.{get_next_loop}
use my_game_server.Server.{
  Task, establish, remove, destroy, Event, established, closed, destroyed, Server, loop_key,
  loop_of, do_task, new_connection, same_event, times, close_connection, front, drop_front,
  run_front, run_next,
}

abbrev pub same_task : Task → Task → Bool
same_task (establish c) (establish d) = c == d
same_task (establish c) (remove d) = false
same_task (establish c) (destroy d) = false
same_task (remove c) (establish d) = false
same_task (remove c) (remove d) = c == d
same_task (remove c) (destroy d) = false
same_task (destroy c) (establish d) = false
same_task (destroy c) (remove d) = false
same_task (destroy c) (destroy d) = c == d

-- How many of the functors wait.
unfoldable pub waiting : Task → List (ℕ × Task) → ℕ
waiting t [] = 0
waiting t ((l, u) ∷ ts) = (if same_task t u then 1 else 0) + waiting t ts

pub waiting-append :
    (t : Task) (ts us : List (ℕ × Task)) → waiting t (ts ++ us) ≡ waiting t ts + waiting t us
unfolding waiting
waiting-append t [] us = omega arith
waiting-append t ((l, u) ∷ ts) us = omega (arith, waiting-append t ts us)

pub times-append : (e : Event) (es fs : List Event) → times e (es ++ fs) ≡ times e es + times e fs
unfolding times
times-append e [] fs = omega arith
times-append e (f ∷ es) fs = omega (arith, times-append e es fs)

waiting-drop_front :
    (t u : Task) (loop : ℕ) (ts : List (ℕ × Task))
    → front loop ts ≡ some u
    → waiting t ts ≡ waiting t (drop_front loop ts) + (if same_task t u then 1 else 0)
unfolding waiting front drop_front
waiting-drop_front t u loop [] h = absurd (cc)
waiting-drop_front t u loop ((l, v) ∷ ts) h = elim (Bool-cases (l == loop)) [
  | inl e ↦
      let same : v ≡ u = ground (arith, e, h) in
      ap (λ k. k + waiting t ts) (ap (λ w. if same_task t w then 1 else 0) same)
      ∙ omega arith
      ∙ ap (λ q. waiting t q + (if same_task t u then 1 else 0)) (sym (if_true _ _ e))
  | inr e ↦
      let rest = waiting-drop_front t u loop ts (sym (if_false _ _ e) ∙ h) in
      ap (λ k. (if same_task t v then 1 else 0) + k) rest
      ∙ omega arith
      ∙ ap (λ q. waiting t q + (if same_task t u then 1 else 0)) (sym (if_false _ _ e))
]

waiting_one :
    (t : Task) (loop : ℕ) (u : Task) (ts : List (ℕ × Task))
    → waiting t (ts ++ ((loop, u) ∷ [])) ≡ waiting t ts + (if same_task t u then 1 else 0)
unfolding waiting
waiting_one t loop u ts = omega (arith, waiting-append t ts ((loop, u) ∷ []))

times_one :
    (e f : Event) (es : List Event)
    → times e (es ++ (f ∷ [])) ≡ times e es + (if same_event e f then 1 else 0)
unfolding times
times_one e f es = omega (arith, times-append e es (f ∷ []))

-- Made are the connections from 1 up to the counter.
abbrev pub made : ℕ → Server → Bool
made c s = ltb 0 c && ltb c s.next_conn_id

-- The books of a connection: `connectEstablished` waits or has run, once, exactly if the connection was
-- made; it runs before any close; each close is on its way through the base loop or has come back to
-- `connectDestroyed`; and the table has the connection until the first close arrives. The numbers are
-- those of waiting and of run functors, and of closes.
pub record Books (is_made : Bool)
    (to_establish establishes closes to_remove to_destroy destroys : ℕ) (is_listed : Bool)
    : Type 0 where
  pub born : to_establish + establishes ≡ (if is_made then 1 else 0)
  pub ordered : 0 < closes → establishes ≡ 1
  pub flows : closes ≡ to_remove + (to_destroy + destroys)
  pub listed : is_listed ≡ (is_made && (to_destroy + destroys == 0))

abbrev pub Balanced : ℕ → Server → Type 0
Balanced c s =
    Books (made c s) (waiting (establish c) s.pending) (times (established c) s.log)
      (times (closed c) s.log) (waiting (remove c) s.pending) (waiting (destroy c) s.pending)
      (times (destroyed c) s.log) (has c s.connections)

-- A connection is made, and its first functor has run or waits.
pub accept-Balanced :
    (c : ℕ) (s : Server) → 0 < s.next_conn_id → Balanced c s → Balanced c (new_connection s)
unfolding new_connection
accept-Balanced c s pos h = ground (
  arith,
  times_one (established c) (established s.next_conn_id) s.log,
  times_one (closed c) (established s.next_conn_id) s.log,
  times_one (destroyed c) (established s.next_conn_id) s.log,
  waiting_one (establish c) (loop_key (get_next_loop s.pool).0) (establish s.next_conn_id)
      s.pending,
  waiting_one (remove c) (loop_key (get_next_loop s.pool).0) (establish s.next_conn_id) s.pending,
  waiting_one (destroy c) (loop_key (get_next_loop s.pool).0) (establish s.next_conn_id) s.pending,
  has-insert s.next_conn_id c (loop_key (get_next_loop s.pool).0) s.connections,
)

same_times :
    (c d : ℕ) (es : List Event)
    → (c == d) ≡ true
    → times (established c) es ≡ times (established d) es
same_times c d es e = ap (λ i. times (established i) es) (==→eq c d e)

-- A closed connection reports to the base loop, or, if that is its own, takes itself off the table.
pub close-Balanced : (c d : ℕ) (s : Server) → Balanced c s → Balanced c (close_connection d s)
unfolding close_connection
close-Balanced c d s h = ground (
  arith,
  times_one (established c) (closed d) s.log,
  times_one (closed c) (closed d) s.log,
  times_one (destroyed c) (closed d) s.log,
  waiting_one (establish c) 0 (remove d) s.pending,
  waiting_one (remove c) 0 (remove d) s.pending,
  waiting_one (destroy c) 0 (remove d) s.pending,
  waiting_one (establish c) (loop_of d s) (destroy d) s.pending,
  waiting_one (remove c) (loop_of d s) (destroy d) s.pending,
  waiting_one (destroy c) (loop_of d s) (destroy d) s.pending,
  has-erase d c s.connections,
  same_times c d s.log,
)

-- A functor comes to the front and runs.
run_task-Balanced :
    (c loop : ℕ) (t : Task) (s : Server)
    → front loop s.pending ≡ some t
    → Balanced c s
    → Balanced c (do_task t (record s { pending = drop_front loop s.pending }))
unfolding do_task
run_task-Balanced c loop (establish d) s e h = ground (
  arith,
  times_one (established c) (established d) s.log,
  times_one (closed c) (established d) s.log,
  times_one (destroyed c) (established d) s.log,
  waiting-drop_front (establish c) (establish d) loop s.pending e,
  waiting-drop_front (remove c) (establish d) loop s.pending e,
  waiting-drop_front (destroy c) (establish d) loop s.pending e,
)
run_task-Balanced c loop (remove d) s e h = ground (
  arith,
  waiting-drop_front (establish c) (remove d) loop s.pending e,
  waiting-drop_front (remove c) (remove d) loop s.pending e,
  waiting-drop_front (destroy c) (remove d) loop s.pending e,
  waiting_one (establish c) (loop_of d s) (destroy d) (drop_front loop s.pending),
  waiting_one (remove c) (loop_of d s) (destroy d) (drop_front loop s.pending),
  waiting_one (destroy c) (loop_of d s) (destroy d) (drop_front loop s.pending),
  has-erase d c s.connections,
)
run_task-Balanced c loop (destroy d) s e h = ground (
  arith,
  times_one (established c) (destroyed d) s.log,
  times_one (closed c) (destroyed d) s.log,
  times_one (destroyed c) (destroyed d) s.log,
  waiting-drop_front (establish c) (destroy d) loop s.pending e,
  waiting-drop_front (remove c) (destroy d) loop s.pending e,
  waiting-drop_front (destroy c) (destroy d) loop s.pending e,
)

pub run_next-Balanced : (c loop : ℕ) (s : Server) → Balanced c s → Balanced c (run_next loop s)
unfolding run_next
run_next-Balanced c loop s h = elim (Option-cases (front loop s.pending)) [
  | inl e ↦ subst (λ o. Balanced c (run_front loop o s)) (sym e) h
  | inr (t, e) ↦
      subst (λ o. Balanced c (run_front loop o s)) (sym e) (run_task-Balanced c loop t s e h)
]
