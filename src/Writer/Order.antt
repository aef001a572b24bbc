-- ===== src/Writer/Order.antt =====
-- storage/AsyncWriter.cc: no task is lost, run twice or overtaken.
use my_game_server.Base.{
  ℕ, ◌==◌, if◌then◌else◌, Bool, true, false, List, [], ◌∷◌, ◌++◌, ◌≡◌, refl, sym, ap, subst, ◌∙◌,
  append-nil, append_assoc,
}
use my_game_server.Writer.{
  wake, run_next, move_thread, Writer, Phase, waiting, asleep, working, exited, enqueue,
  request_stop, notify_one, woken, thread_step, Op, enqueues, stops, notifies, rouses, moves, step,
  run, enqueued,
}

-- The tasks in the order in which they were, are and will be run.
abbrev pub tasks : Writer → List ℕ
tasks w = w.ran ++ (w.batch ++ w.front)

-- The batch is empty while the thread waits, and after it ended.
abbrev pub IsIdle : Phase → List ℕ → Type 0
IsIdle working b = Unit
IsIdle waiting b = b ≡ []
IsIdle asleep b = b ≡ []
IsIdle exited b = b ≡ []

abbrev pub IsOrdered : Writer → List ℕ → Type 0
IsOrdered w ts = (tasks w ≡ ts) × IsIdle w.phase w.batch

abbrev state : Phase → List ℕ → List ℕ → Bool → List ℕ → ℕ → Writer
state p b f s r n = record { front = f; stop = s; batch = b; phase = p; ran = r; owed = n }

wake-IsOrdered :
    (b f : List ℕ) (s : Bool) (r : List ℕ) (n : ℕ)
    → b ≡ []
    → IsOrdered (wake f (state waiting b f s r n)) (r ++ (b ++ f))
wake-IsOrdered b [] true r n i = (refl, i)
wake-IsOrdered b [] false r n i = (refl, i)
wake-IsOrdered b (t ∷ ts) s r n i = (
  ap (λ l. r ++ (t ∷ (ts ++ l))) i
      ∙ (ap (λ l. r ++ (t ∷ l)) (append-nil ts) ∙ ap (λ l. r ++ (l ++ (t ∷ ts))) (sym i)),
  tt,
)

run_next-IsOrdered :
    (b f : List ℕ) (s : Bool) (r : List ℕ) (n : ℕ)
    → IsOrdered (run_next b (state working b f s r n)) (r ++ (b ++ f))
run_next-IsOrdered [] f s r n = (refl, refl)
run_next-IsOrdered (t ∷ ts) f s r n = (append_assoc r (t ∷ []) (ts ++ f), tt)

move_thread-IsOrdered :
    (p : Phase) (b f : List ℕ) (s : Bool) (r : List ℕ) (n : ℕ)
    → IsIdle p b
    → IsOrdered (move_thread p (state p b f s r n)) (r ++ (b ++ f))
move_thread-IsOrdered waiting b f s r n i = wake-IsOrdered b f s r n i
move_thread-IsOrdered asleep b f s r n i = (refl, i)
move_thread-IsOrdered working b f s r n i = run_next-IsOrdered b f s r n
move_thread-IsOrdered exited b f s r n i = (refl, i)

pub thread_step-IsOrdered :
    (w : Writer) (ts : List ℕ) → IsOrdered w ts → IsOrdered (thread_step w) ts
unfolding thread_step
thread_step-IsOrdered w ts (e, i) =
    let (d, j) = move_thread-IsOrdered w.phase w.batch w.front w.stop w.ran w.owed i in (d ∙ e, j)

enqueue-IsOrdered :
    (t : ℕ) (w : Writer) (ts : List ℕ) → IsOrdered w ts → IsOrdered (enqueue t w) (ts ++ (t ∷ []))
unfolding enqueue
enqueue-IsOrdered t w ts (e, i) = (
  ap (λ l. w.ran ++ l) (sym (append_assoc w.batch w.front (t ∷ [])))
      ∙ (sym (append_assoc w.ran (w.batch ++ w.front) (t ∷ [])) ∙ ap (λ l. l ++ (t ∷ [])) e),
  i,
)

pub woken-IsIdle : (p : Phase) (b : List ℕ) → IsIdle p b → IsIdle (woken p) b
woken-IsIdle waiting b i = i
woken-IsIdle asleep b i = i
woken-IsIdle working b i = i
woken-IsIdle exited b i = i

pub notify_one-IsOrdered : (w : Writer) (ts : List ℕ) → IsOrdered w ts → IsOrdered (notify_one w) ts
unfolding notify_one
notify_one-IsOrdered w ts (e, i) = (e, woken-IsIdle w.phase w.batch i)

notifies-IsOrdered : (w : Writer) (ts : List ℕ) → IsOrdered w ts → IsOrdered (step notifies w) ts
unfolding step
notifies-IsOrdered w ts o = either (w.owed == 0)
  where
    either : (b : Bool) → IsOrdered (if b then w else notify_one w) ts
    either true = o
    either false = notify_one-IsOrdered w ts o

-- From any state, under any interleaving of the threads, the tasks of the queue are those that were
-- there with those that were enqueued since behind them, in order.
pub run-IsOrdered :
    (os : List Op) (w : Writer) (ts : List ℕ)
    → IsOrdered w ts
    → IsOrdered (run os w) (ts ++ enqueued os)
unfolding run enqueued step request_stop
run-IsOrdered [] w ts o = (o.0 ∙ sym (append-nil ts), o.1)
run-IsOrdered (enqueues t ∷ os) w ts o =
    subst (IsOrdered (run os (enqueue t w))) (append_assoc ts (t ∷ []) (enqueued os))
      (run-IsOrdered os (enqueue t w) (ts ++ (t ∷ [])) (enqueue-IsOrdered t w ts o))
run-IsOrdered (stops ∷ os) w ts o = run-IsOrdered os (request_stop w) ts o
run-IsOrdered (notifies ∷ os) w ts o =
    run-IsOrdered os (step notifies w) ts (notifies-IsOrdered w ts o)
run-IsOrdered (rouses ∷ os) w ts o =
    run-IsOrdered os (record w { phase = woken w.phase }) ts (o.0, woken-IsIdle w.phase w.batch o.1)
run-IsOrdered (moves ∷ os) w ts o =
    run-IsOrdered os (thread_step w) ts (thread_step-IsOrdered w ts o)
