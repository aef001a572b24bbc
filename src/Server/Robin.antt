-- ===== src/Server/Robin.antt =====
-- net/TcpServer.cc and net/EventLoopThreadPool.cc: the IO loops take turns.
use my_game_server.Base.{
  ℕ, suc, ◌+◌, ◌-◌, ◌%◌, ◌<◌, ◌==◌, if◌then◌else◌, true, false, List, [], ◌∷◌, some, ◌≡◌, refl, sym,
  ap, ◌∙◌, arith, Bool-cases, inl, inr, if_true, if_false, ==→eq, ==→ne, ◌⊎◌,
}
use my_game_server.Base.Map.{lookup, insert, lookup-insert}
use my_game_server.Lobby.Defs.{Pool, get_next_loop}
use my_game_server.Server.{
  Server, new_server, new_connection, Op, accepts, closes, runs, step, run, loop_of, loop_key,
  or_base,
}
use my_game_server.Server.Settled.{Keeps, close-Keeps, run_next-Keeps}
use native.Mathlib.Nat.{mod-add-mod}

-- The loop of the n-th connection, counted from 0.
abbrev pub turn_of : ℕ → ℕ → ℕ
turn_of threads n = if threads == 0 then 0 else suc (n % threads)

abbrev pub InTurn : ℕ → Server → Type 0
InTurn threads s = (c : ℕ) → suc c < s.next_conn_id → loop_of (suc c) s ≡ turn_of threads c

record Turns (threads : ℕ) (s : Server) : Type 0 where
  size : s.pool.loops ≡ threads
  next : 0 < threads → s.pool.next ≡ (s.next_conn_id - 1) % threads
  counter : 0 < s.next_conn_id
  all : InTurn threads s

Turns-Keeps : (threads : ℕ) (s s' : Server) → Keeps s s' → Turns threads s → Turns threads s'
unfolding loop_of
Turns-Keeps threads s s' (n, m, p) t = record {
  size = ap (λ p. p.loops) p ∙ t.size;
  next = λ h. ap (λ p. p.next) p ∙ t.next h ∙ ap (λ n. (n - 1) % threads) (sym n);
  counter = omega (arith, n, t.counter);
  all = λ c h. ap (λ m. or_base (lookup (suc c) m)) m ∙ t.all c (omega (arith, n));
}

-- What a new connection changes of it.
accept_lem :
    (s : Server)
    → let s' = new_connection s in
      (s'.next_conn_id ≡ s.next_conn_id + 1)
      × (s'.made ≡ insert s.next_conn_id (loop_key (get_next_loop s.pool).0) s.made)
      × (s'.pool ≡ (get_next_loop s.pool).1)
unfolding new_connection
accept_lem s = ground arith

-- The loop that the pool hands out, and what it hands out next.
pool_turn :
    (threads n : ℕ) (p : Pool)
    → p.loops ≡ threads
    → (0 < threads → p.next ≡ n % threads)
    → (loop_key (get_next_loop p).0 ≡ turn_of threads n)
      × ((get_next_loop p).1.loops ≡ threads)
      × (0 < threads → (get_next_loop p).1.next ≡ (n + 1) % threads)
unfolding get_next_loop
pool_turn threads n p size next =
    ground (arith, mod-add-mod n threads 1, ap (λ l. (p.next + 1) % l) size)

accept-Turns : (threads : ℕ) (s : Server) → Turns threads s → Turns threads (new_connection s)
unfolding loop_of
accept-Turns threads s t =
    let (n, m, p) = accept_lem s in
    let (key, size, next) = pool_turn threads (s.next_conn_id - 1) s.pool t.size t.next in
    record {
      size = ap (λ p. p.loops) p ∙ size;
      next = λ h.
          ap (λ p. p.next) p
          ∙ next h
          ∙ ap (λ k. k % threads)
              (let e : s.next_conn_id - 1 + 1 ≡ (new_connection s).next_conn_id - 1 =
                  omega (arith, n, t.counter) in
                e);
      counter = omega (arith, n);
      all = λ c h.
          ap (λ m. or_base (lookup (suc c) m)) m
          ∙ ap or_base
              (lookup-insert s.next_conn_id (suc c) (loop_key (get_next_loop s.pool).0) s.made)
          ∙ by_key c (omega (arith, n, h)) key (Bool-cases (s.next_conn_id == suc c));
    }
  where
    by_key :
        (c : ℕ)
        → suc c < s.next_conn_id + 1
        → loop_key (get_next_loop s.pool).0 ≡ turn_of threads (s.next_conn_id - 1)
        → ((s.next_conn_id == suc c) ≡ true) ⊎ ((s.next_conn_id == suc c) ≡ false)
        → or_base (
            if s.next_conn_id == suc c
            then some (loop_key (get_next_loop s.pool).0)
            else lookup (suc c) s.made)
          ≡ turn_of threads c
    by_key c h key (inl e) =
        ap or_base (if_true _ _ e)
        ∙ key
        ∙ ap (turn_of threads)
            (let f : s.next_conn_id - 1 ≡ c = omega (arith, ==→eq s.next_conn_id (suc c) e) in f)
    by_key c h key (inr e) =
        ap or_base (if_false _ _ e) ∙ t.all c (omega (arith, ==→ne s.next_conn_id (suc c) e))

step-Turns : (threads : ℕ) (o : Op) (s : Server) → Turns threads s → Turns threads (step o s)
unfolding step
step-Turns threads accepts s t = accept-Turns threads s t
step-Turns threads (closes c) s t = Turns-Keeps threads s _ (close-Keeps c s) t
step-Turns threads (runs loop) s t = Turns-Keeps threads s _ (run_next-Keeps loop s) t

run-Turns : (threads : ℕ) (os : List Op) (s : Server) → Turns threads s → Turns threads (run os s)
unfolding run
run-Turns threads [] s t = t
run-Turns threads (o ∷ os) s t = run-Turns threads os (step o s) (step-Turns threads o s t)

-- Whatever happens in between: the n-th connection, counted from 0, gets the loop n modulo the number of
-- IO loops, where those are the loops from 1 on, and the base loop where there are none.
pub loop_of-turns :
    (threads : ℕ) (os : List Op) (n : ℕ)
    → suc n < (run os (new_server threads)).next_conn_id
    → loop_of (suc n) (run os (new_server threads)) ≡ turn_of threads n
unfolding new_server
loop_of-turns threads os n h = (run-Turns threads os (new_server threads) start).all n h
  where
    start : Turns threads (new_server threads)
    start = record {
      size = refl;
      next = λ h. grind arith;
      counter = omega arith;
      all = λ c h. absurd (omega arith);
    }
