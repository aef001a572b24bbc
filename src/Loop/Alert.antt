-- ===== src/Loop/Alert.antt =====
-- net/EventLoop.cc: no functor is lost, overtaken or left behind a `poll` that nothing wakes.
use my_game_server.Base.{
  ℕ, ◌+◌, ◌-◌, ◌≤◌, ltb, if◌then◌else◌, Bool, true, false, List, [], ◌∷◌, ◌++◌, ◌≡◌, refl, sym, ap,
  subst, ◌∙◌, append-nil, append_assoc, arith, ◌⊎◌, inl, inr,
}
use my_game_server.Loop.{
  Phase, polling, swapping, running, handling, Loop, fresh, push_functor, write_wakeup, run_next,
  move_at, move, Op, pushes, writes, moves, step, run, pushed,
}

-- The batch is empty outside of the loop of `doPendingFunctors`.
abbrev pub IsIdle : Phase → List ℕ → Type 0
IsIdle running b = Unit
IsIdle polling b = b ≡ []
IsIdle (handling active) b = b ≡ []
IsIdle swapping b = b ≡ []

-- Whether the loop goes through `poll` before the next swap.
abbrev pub will_poll : Phase → Bool
will_poll polling = true
will_poll running = true
will_poll (handling active) = false
will_poll swapping = false

-- The functors in order are `fs`; and if some are pending while `poll` is still to come, the eventfd is
-- readable, or the thread that pushed is about to write to it.
pub record IsAlert (l : Loop) (fs : List ℕ) : Type 0 where
  pub order : l.ran ++ (l.batch ++ l.pending) ≡ fs
  pub idle : IsIdle l.phase l.batch
  pub wakes : will_poll l.phase ≡ true → (l.pending ≡ []) ⊎ (1 ≤ l.counter + l.owed)

push-IsAlert :
    (f : ℕ) (l : Loop) (fs : List ℕ) → IsAlert l fs → IsAlert (push_functor f l) (fs ++ (f ∷ []))
unfolding push_functor
push-IsAlert f l fs v = record {
  order =
      ap (λ k. l.ran ++ k) (sym (append_assoc l.batch l.pending (f ∷ [])))
      ∙ (sym (append_assoc l.ran (l.batch ++ l.pending) (f ∷ []))
          ∙ ap (λ k. k ++ (f ∷ [])) v.order);
  idle = v.idle;
  wakes = λ e. inr (omega arith);
}

write-IsAlert : (l : Loop) (fs : List ℕ) → IsAlert l fs → IsAlert (write_wakeup l) fs
unfolding write_wakeup
write-IsAlert l fs v = either (ltb 0 l.owed) refl
  where
    either :
        (b : Bool)
        → ltb 0 l.owed ≡ b
        → IsAlert (if b then record l { owed = l.owed - 1; counter = l.counter + 1 } else l) fs
    either true e = record { order = v.order; idle = v.idle; wakes = λ h. inr (omega arith) }
    either false e = v

abbrev state : Phase → List ℕ → List ℕ → ℕ → ℕ → List ℕ → Loop
state p b q c o r = record { pending = q; batch = b; phase = p; counter = c; owed = o; ran = r }

run_next-IsAlert :
    (b q : List ℕ) (c o : ℕ) (r fs : List ℕ)
    → IsAlert (state running b q c o r) fs
    → IsAlert (run_next b (state running b q c o r)) fs
run_next-IsAlert [] q c o r fs v = record { order = v.order; idle = refl; wakes = v.wakes }
run_next-IsAlert (f ∷ b) q c o r fs v = record {
  order = append_assoc r (f ∷ []) (b ++ q) ∙ v.order;
  idle = tt;
  wakes = v.wakes;
}

move_at-IsAlert :
    (p : Phase) (b q : List ℕ) (c o : ℕ) (r fs : List ℕ)
    → IsAlert (state p b q c o r) fs
    → IsAlert (move_at p (state p b q c o r)) fs
move_at-IsAlert polling b q c o r fs v = record { order = v.order; idle = v.idle; wakes = λ e. cc }
move_at-IsAlert (handling true) b q c o r fs v = record {
  order = v.order;
  idle = v.idle;
  wakes = λ e. cc;
}
move_at-IsAlert (handling false) b q c o r fs v = record {
  order = v.order;
  idle = v.idle;
  wakes = λ e. cc;
}
move_at-IsAlert swapping b q c o r fs v = record {
  order =
      ap (λ k. r ++ (q ++ k)) v.idle
      ∙ (ap (λ k. r ++ k) (append-nil q) ∙ (ap (λ k. r ++ (k ++ q)) (sym v.idle) ∙ v.order));
  idle = tt;
  wakes = λ e. inl v.idle;
}
move_at-IsAlert running b q c o r fs v = run_next-IsAlert b q c o r fs v

run-IsAlert :
    (os : List Op) (l : Loop) (fs : List ℕ) → IsAlert l fs → IsAlert (run os l) (fs ++ pushed os)
unfolding run step pushed move
run-IsAlert [] l fs v = subst (IsAlert l) (sym (append-nil fs)) v
run-IsAlert (pushes f ∷ os) l fs v =
    subst (IsAlert (run os (push_functor f l))) (append_assoc fs (f ∷ []) (pushed os))
      (run-IsAlert os (push_functor f l) (fs ++ (f ∷ [])) (push-IsAlert f l fs v))
run-IsAlert (writes ∷ os) l fs v = run-IsAlert os (write_wakeup l) fs (write-IsAlert l fs v)
run-IsAlert (moves ∷ os) l fs v =
    run-IsAlert os (move l) fs
      (move_at-IsAlert l.phase l.batch l.pending l.counter l.owed l.ran fs v)

-- Under any interleaving of the loop with the threads that queue functors: the functors that ran, are
-- being run and are pending are exactly those that were queued, in the order of their pushes; and while
-- functors are pending and the loop will `poll` before it takes them, the eventfd is readable, or the
-- thread that pushed one is about to write to it.
pub run-fresh-IsAlert : (os : List Op) → IsAlert (run os fresh) (pushed os)
run-fresh-IsAlert os =
    run-IsAlert os fresh [] (record { order = refl; idle = refl; wakes = λ e. inl refl })
