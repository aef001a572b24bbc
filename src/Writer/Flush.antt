-- ===== src/Writer/Flush.antt =====
-- storage/AsyncWriter.cc: the destructor waits for a thread that runs every task before it ends.
use my_game_server.Base.{
  ℕ, zero, suc, ◌+◌, ◌-◌, ◌≤◌, arith, true, List, [], ◌∷◌, ◌++◌, length, ◌≡◌, ◌≢◌, refl, sym, ap,
  subst, ◌∙◌, append-nil, append_assoc,
}
use my_game_server.Writer.{
  Writer, Phase, waiting, asleep, working, exited, woken, fresh, request_stop, notify_one,
  move_thread, thread_step, thread_steps, Op, run, enqueued,
}
use my_game_server.Writer.Order.{
  IsIdle, IsOrdered, run-IsOrdered, thread_step-IsOrdered, woken-IsIdle,
}

abbrev stopped : ℕ → Phase → List ℕ → List ℕ → List ℕ → Writer
stopped o p b f r = record { front = f; stop = true; batch = b; phase = p; ran = r; owed = o }

abbrev ended : ℕ → List ℕ → Writer
ended o r = stopped o exited [] [] r

stays_ended : (o n : ℕ) (r : List ℕ) → thread_steps n (ended o r) ≡ ended o r
unfolding thread_steps thread_step
stays_ended o zero r = refl
stays_ended o (suc n) r = stays_ended o n r

-- The moves that the thread makes over a batch, and `n` more.
abbrev moves_over : List ℕ → ℕ → ℕ
moves_over [] n = suc n
moves_over (t ∷ ts) n = suc (moves_over ts n)

count_moves : (b : List ℕ) (n : ℕ) → moves_over b n ≡ length b + suc n
count_moves [] n = omega arith
count_moves (t ∷ ts) n = ap suc (count_moves ts n) ∙ omega arith

work_off :
    (o : ℕ) (b f r : List ℕ) (n : ℕ)
    → thread_steps (moves_over b n) (stopped o working b f r)
      ≡ thread_steps n (stopped o waiting [] f (r ++ b))
unfolding thread_steps thread_step
work_off o [] f r n = ap (λ l. thread_steps n (stopped o waiting [] f l)) (sym (append-nil r))
work_off o (t ∷ ts) f r n =
    work_off o ts f (r ++ (t ∷ [])) n
    ∙ ap (λ l. thread_steps n (stopped o waiting [] f l)) (append_assoc r (t ∷ []) ts)

-- The thread takes the tasks in front if there are any, and ends.
wait_ends :
    (o : ℕ) (f r : List ℕ) (n : ℕ)
    → length f + 3 ≤ n
    → thread_steps n (stopped o waiting [] f r) ≡ ended o (r ++ f)
unfolding thread_steps thread_step
wait_ends o f r zero h = absurd (omega arith)
wait_ends o [] r (suc n) h = stays_ended o n r ∙ ap (ended o) (sym (append-nil r))
wait_ends o (t ∷ ts) r (suc n) h =
    let k = n - (length (t ∷ ts) + 2) in
    let e : n ≡ moves_over (t ∷ ts) (suc k) = omega arith ∙ sym (count_moves (t ∷ ts) (suc k)) in
    ap (λ i. thread_steps i (stopped o working (t ∷ ts) [] r)) e
    ∙ (work_off o (t ∷ ts) [] r (suc k) ∙ stays_ended o k (r ++ (t ∷ ts)))

flushes :
    (o : ℕ) (p : Phase) (b f r : List ℕ) (n : ℕ)
    → IsIdle p b
    → p ≢ asleep
    → (p ≡ exited → f ≡ [])
    → length b + length f + 4 ≤ n
    → thread_steps n (stopped o p b f r) ≡ ended o (r ++ (b ++ f))
flushes o waiting b f r n i a k h =
    subst (λ c. thread_steps n (stopped o waiting c f r) ≡ ended o (r ++ (c ++ f))) (sym i)
      (wait_ends o f r n (omega arith))
flushes o working b f r n i a k h =
    let m = n - length b - 1 in
    let e : n ≡ moves_over b m = omega arith ∙ sym (count_moves b m) in
    ap (λ j. thread_steps j (stopped o working b f r)) e
    ∙ (work_off o b f r m
        ∙ (wait_ends o f (r ++ b) m (omega arith) ∙ ap (ended o) (append_assoc r b f)))
flushes o asleep b f r n i a k h = absurd (a refl)
flushes o exited b f r n i a k h =
    subst (λ c. thread_steps n (stopped o exited c f r) ≡ ended o (r ++ (c ++ f))) (sym i)
      (subst (λ c. thread_steps n (stopped o exited [] c r) ≡ ended o (r ++ c)) (sym (k refl))
        (stays_ended o n r ∙ ap (ended o) (sym (append-nil r))))

-- What the destructor relies on of the writer.
abbrev IsClosing : Writer → Type 0
IsClosing w = (w.stop ≡ true) × (w.phase ≡ exited → w.front ≡ [])

move_thread-IsClosing :
    (p : Phase) (b f r : List ℕ) (o : ℕ)
    → (p ≡ exited → f ≡ [])
    → IsClosing (move_thread p (stopped o p b f r))
move_thread-IsClosing waiting b [] r o k = (refl, λ e. refl)
move_thread-IsClosing waiting b (t ∷ ts) r o k = (refl, λ e. cc)
move_thread-IsClosing asleep b f r o k = (refl, k)
move_thread-IsClosing working [] f r o k = (refl, λ e. cc)
move_thread-IsClosing working (t ∷ ts) f r o k = (refl, λ e. cc)
move_thread-IsClosing exited b f r o k = (refl, k)

thread_step-IsClosing : (w : Writer) → IsClosing w → IsClosing (thread_step w)
unfolding thread_step
thread_step-IsClosing w (s, k) =
    subst (λ b. IsClosing (move_thread w.phase (record w { stop = b }))) (sym s)
      (move_thread-IsClosing w.phase w.batch w.front w.ran w.owed k)

thread_steps-IsClosing :
    (n : ℕ) (w : Writer) (ts : List ℕ)
    → IsClosing w
    → IsOrdered w ts
    → IsClosing (thread_steps n w) × IsOrdered (thread_steps n w) ts
unfolding thread_steps
thread_steps-IsClosing zero w ts c o = (c, o)
thread_steps-IsClosing (suc n) w ts c o =
    thread_steps-IsClosing n (thread_step w) ts (thread_step-IsClosing w c)
      (thread_step-IsOrdered w ts o)

not_asleep : (p : Phase) → woken p ≢ asleep
not_asleep waiting = λ e. cc
not_asleep asleep = λ e. cc
not_asleep working = λ e. cc
not_asleep exited = λ e. cc

exited_before : (p : Phase) → woken p ≡ exited → p ≡ exited
exited_before waiting e = cc
exited_before asleep e = cc
exited_before working e = cc
exited_before exited e = refl

-- The destructor ends, and has all tasks run first. Whatever the threads did before, provided that nothing
-- was enqueued after the storage thread had ended: once the destructor has set its flag, the thread has
-- moved any number of times, and the destructor has called `notify_one`, the thread ends after a bounded
-- number of its moves, asleep or not before, and has then run every task that was enqueued, once and in
-- order.
pub flush_all :
    (os : List Op) (k n : ℕ)
    → let w = run os fresh in
      let w' = thread_steps k (request_stop w) in
      ((w.phase ≡ exited) → w.front ≡ [])
      → length w'.batch + length w'.front + 4 ≤ n
      → thread_steps n (notify_one w') ≡ record {
        front = [];
        stop = true;
        batch = [];
        phase = exited;
        ran = enqueued os;
        owed = w'.owed - 1;
      }
unfolding request_stop notify_one
flush_all os k n c h =
    let w = run os fresh in
    let ((s, c'), (e, i)) =
      thread_steps-IsClosing k (record w { stop = true; owed = w.owed + 1 }) (enqueued os) (refl, c)
        (run-IsOrdered os fresh [] (refl, refl)) in
    let w' = thread_steps k (record w { stop = true; owed = w.owed + 1 }) in
    subst
      (λ b.
        thread_steps n (record w' { stop = b; phase = woken w'.phase; owed = w'.owed - 1 })
        ≡ ended (w'.owed - 1) (enqueued os))
      (sym s)
      (flushes (w'.owed - 1) (woken w'.phase) w'.batch w'.front w'.ran n
          (woken-IsIdle w'.phase w'.batch i) (not_asleep w'.phase)
          (λ e. c' (exited_before w'.phase e)) h
        ∙ ap (ended (w'.owed - 1)) e)
