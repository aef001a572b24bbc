-- ===== src/Server/Settled.antt =====
-- net/TcpServer.cc: what comes of the connections, whatever the loops do in which order.
use my_game_server.Base.{
  ℕ, zero, suc, ◌+◌, ◌-◌, ◌<◌, ◌≤◌, ◌==◌, if◌then◌else◌, ◌&&◌, List, [], ◌∷◌, ◌++◌, Option, none,
  some, ◌≡◌, refl, ap, ◌∙◌, arith, if_true, ==_self,
}
use my_game_server.Base.Map.{has, lookup}
use my_game_server.Server.{
  Task, establish, remove, destroy, established, closed, destroyed, Server, new_server, do_task,
  new_connection, close_connection, times, front, drop_front, run_front, run_next, Op, accepts,
  closes, runs, step, run, loop_of,
}
use my_game_server.Server.Accounts.{
  Balanced, made, waiting, accept-Balanced, close-Balanced, run_next-Balanced,
}

-- Closing and running leave alone what a new connection counts on.
abbrev pub Keeps : Server → Server → Type 0
Keeps s s' = (s'.next_conn_id ≡ s.next_conn_id) × (s'.made ≡ s.made) × (s'.pool ≡ s.pool)

pub close-Keeps : (c : ℕ) (s : Server) → Keeps s (close_connection c s)
unfolding close_connection
close-Keeps c s = ground arith

do_task-Keeps : (t : Task) (s : Server) → Keeps s (do_task t s)
unfolding do_task
do_task-Keeps (establish c) s = (refl, refl, refl)
do_task-Keeps (remove c) s = (refl, refl, refl)
do_task-Keeps (destroy c) s = (refl, refl, refl)

pub run_next-Keeps : (loop : ℕ) (s : Server) → Keeps s (run_next loop s)
unfolding run_next
run_next-Keeps loop s = by_front (front loop s.pending)
  where
    by_front : (o : Option Task) → Keeps s (run_front loop o s)
    by_front none = (refl, refl, refl)
    by_front (some t) = do_task-Keeps t (record s { pending = drop_front loop s.pending })

pub counts_up : (o : Op) (s : Server) → 0 < s.next_conn_id → 0 < (step o s).next_conn_id
unfolding step new_connection
counts_up accepts s h = ground arith
counts_up (closes c) s h = omega (arith, (close-Keeps c s).0)
counts_up (runs loop) s h = omega (arith, (run_next-Keeps loop s).0)

step-Balanced :
    (c : ℕ) (o : Op) (s : Server)
    → (0 < s.next_conn_id) × Balanced c s
    → (0 < (step o s).next_conn_id) × Balanced c (step o s)
unfolding step
step-Balanced c accepts s (p, h) = (counts_up accepts s p, accept-Balanced c s p h)
step-Balanced c (closes d) s (p, h) = (counts_up (closes d) s p, close-Balanced c d s h)
step-Balanced c (runs loop) s (p, h) = (counts_up (runs loop) s p, run_next-Balanced c loop s h)

run-Balanced :
    (c : ℕ) (os : List Op) (s : Server)
    → (0 < s.next_conn_id) × Balanced c s
    → (0 < (run os s).next_conn_id) × Balanced c (run os s)
unfolding run
run-Balanced c [] s h = h
run-Balanced c (o ∷ os) s h = run-Balanced c os (step o s) (step-Balanced c o s h)

-- Whatever connections come, close and are served by whichever loops in whichever order, the books of
-- each are balanced: a connection is established once, waits for it or has had it; it is established
-- before it closes; each of its closes is a removal that waits for the base loop, or a destruction that
-- waits for its own loop or has run; and the table has it exactly while it is made and no removal has run.
pub run-new-Balanced : (c threads : ℕ) (os : List Op) → Balanced c (run os (new_server threads))
unfolding new_server times waiting has lookup
run-new-Balanced c threads os = (run-Balanced c os (new_server threads) (omega arith, empty)).1
  where
    empty : Balanced c (new_server threads)
    empty = ground arith

-- How much there is left to run: a removal brings a destruction.
unfoldable pub weight : List (ℕ × Task) → ℕ
weight [] = 0
weight ((l, establish c) ∷ ts) = 1 + weight ts
weight ((l, remove c) ∷ ts) = 2 + weight ts
weight ((l, destroy c) ∷ ts) = 1 + weight ts

weight-append : (ts us : List (ℕ × Task)) → weight (ts ++ us) ≡ weight ts + weight us
unfolding weight
weight-append [] us = omega arith
weight-append ((l, establish c) ∷ ts) us = omega (arith, weight-append ts us)
weight-append ((l, remove c) ∷ ts) us = omega (arith, weight-append ts us)
weight-append ((l, destroy c) ∷ ts) us = omega (arith, weight-append ts us)

-- The loop of the oldest functor runs it.
abbrev pub serve_first : List (ℕ × Task) → Server → Server
serve_first [] s = s
serve_first ((l, t) ∷ ts) s = run_next l s

unfoldable pub drain : ℕ → Server → Server
drain zero s = s
drain (suc n) s = drain n (serve_first s.pending s)

front-head : (l : ℕ) (t : Task) (ts : List (ℕ × Task)) → front l ((l, t) ∷ ts) ≡ some t
unfolding front
front-head l t ts = if_true _ _ (==_self l)

drop_front-head : (l : ℕ) (t : Task) (ts : List (ℕ × Task)) → drop_front l ((l, t) ∷ ts) ≡ ts
unfolding drop_front
drop_front-head l t ts = if_true _ _ (==_self l)

do_task-weight :
    (l : ℕ) (t : Task) (s : Server) → weight (do_task t s).pending + 1 ≡ weight ((l, t) ∷ s.pending)
unfolding do_task weight
do_task-weight l (establish c) s = omega arith
do_task-weight l (remove c) s =
    omega (arith, weight-append s.pending ((loop_of c s, destroy c) ∷ []))
do_task-weight l (destroy c) s = omega arith

serve_first-weight :
    (ts : List (ℕ × Task)) (s : Server)
    → s.pending ≡ ts
    → weight (serve_first ts s).pending ≡ weight ts - 1
unfolding run_next weight
serve_first-weight [] s e = ap weight e ∙ none_left
  where
    none_left : weight [] ≡ weight [] - 1
    none_left = refl
serve_first-weight ((l, t) ∷ ts) s e =
    ap (λ o. weight (run_front l o s).pending) (ap (front l) e ∙ front-head l t ts) ∙ served
  where
    rest : drop_front l s.pending ≡ ts
    rest = ap (drop_front l) e ∙ drop_front-head l t ts

    served :
        weight (do_task t (record s { pending = drop_front l s.pending })).pending
        ≡ weight ((l, t) ∷ ts) - 1
    served = omega (
      arith,
      do_task-weight l t (record s { pending = drop_front l s.pending }),
      ap (λ q. weight ((l, t) ∷ q)) rest,
    )

serve_first-step :
    (ts : List (ℕ × Task)) (c : ℕ) (s : Server) → Balanced c s → Balanced c (serve_first ts s)
serve_first-step [] c s h = h
serve_first-step ((l, t) ∷ ts) c s h = run_next-Balanced c l s h

drain-Balanced : (n c : ℕ) (s : Server) → Balanced c s → Balanced c (drain n s)
unfolding drain
drain-Balanced zero c s h = h
drain-Balanced (suc n) c s h =
    drain-Balanced n c (serve_first s.pending s) (serve_first-step s.pending c s h)

drain-weight : (n : ℕ) (s : Server) → weight s.pending ≤ n → weight (drain n s).pending ≡ 0
unfolding drain
drain-weight zero s h = omega arith
drain-weight (suc n) s h =
    drain-weight n (serve_first s.pending s) (omega (arith, serve_first-weight s.pending s refl))

weightless : (ts : List (ℕ × Task)) → weight ts ≡ 0 → ts ≡ []
unfolding weight
weightless [] h = refl
weightless ((l, establish c) ∷ ts) h = absurd (omega arith)
weightless ((l, remove c) ∷ ts) h = absurd (omega arith)
weightless ((l, destroy c) ∷ ts) h = absurd (omega arith)

-- What is left of a connection when no functor waits.
abbrev pub IsSettled : ℕ → Server → Type 0
IsSettled c s =
    (times (established c) s.log ≡ (if made c s then 1 else 0))
    × (times (destroyed c) s.log ≡ times (closed c) s.log)
    × (has c s.connections ≡ (made c s && (times (closed c) s.log == 0)))

Balanced-IsSettled : (c : ℕ) (s : Server) → s.pending ≡ [] → Balanced c s → IsSettled c s
unfolding waiting
Balanced-IsSettled c s e h =
    ground
      (arith, ap (waiting (establish c)) e, ap (waiting (remove c)) e, ap (waiting (destroy c)) e)

-- After any steps, running the functors that wait, oldest first, as often as there are functors and
-- removals among them, leaves none. Then every connection that was made was established once, was
-- destroyed as often as it was closed, and stands in the table exactly if it was never closed.
pub drain-IsSettled :
    (c threads : ℕ) (os : List Op)
    → let s = run os (new_server threads) in
      let s' = drain (weight s.pending) s in (s'.pending ≡ []) × IsSettled c s'
drain-IsSettled c threads os =
    let s = run os (new_server threads) in
    let quiet =
      weightless (drain (weight s.pending) s).pending
        (drain-weight (weight s.pending) s (omega arith)) in
    (
      quiet,
      Balanced-IsSettled c (drain (weight s.pending) s) quiet
          (drain-Balanced _ c s (run-new-Balanced c threads os)),
    )
