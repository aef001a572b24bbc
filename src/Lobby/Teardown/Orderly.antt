-- ===== src/Lobby/Teardown/Orderly.antt =====
-- game/GameServer.cc, the destructor: how `remain` and the functors that wait go together.
use my_game_server.Base.{
  ℕ, zero, suc, if_false, ◌+◌, ◌==◌, if◌then◌else◌, Bool, true, false, List, [], ◌∷◌, ◌++◌, Option,
  none, some, length, ◌≡◌, refl, sym, subst, arith, length-append,
}
use my_game_server.Base.Map.{Map}
use my_game_server.Lobby.Teardown.{
  Teardown, serving, close, finish_one, stop_room, send_stop, stop_rooms, tear_down, front,
  drop_front, run_front, run_closing, Op, stops, shuts, step, run,
}

-- The rooms of `rs` are those that the loop over the rooms has not come to yet.
pub record IsOrderly (k : ℕ) (s : Teardown) : Type 0 where
  pub left : s.remain ≡ length s.pending + k
  pub once : s.released + s.closings + (if s.remain == 0 then 0 else 1) ≡ 1
  pub pool : s.pool ≡ (s.released == 0)

finish_one-IsOrderly :
    (here k : ℕ) (s : Teardown) → IsOrderly (suc k) s → IsOrderly k (finish_one here s)
unfolding finish_one close
finish_one-IsOrderly here k s h = record {
  left = ground (arith, h.left);
  once = ground (arith, h.left, h.once);
  pool = ground (arith, h.pool, h.left, h.once);
}

front-length :
    (here room : ℕ) (ps : List (ℕ × ℕ))
    → front here ps ≡ some room
    → length ps ≡ 1 + length (drop_front here ps)
unfolding front drop_front
front-length here room [] e = ground (arith, e)
front-length here room ((l, r) ∷ ps) e = ground (arith, e, front-length here room ps)

run_front-IsOrderly :
    (here : ℕ) (o : Option ℕ) (s : Teardown)
    → front here s.pending ≡ o
    → IsOrderly 0 s
    → IsOrderly 0 (run_front here o s)
unfolding stop_room
run_front-IsOrderly here none s e h = h
run_front-IsOrderly here (some room) s e h =
    finish_one-IsOrderly here 0
      (record s { pending = drop_front here s.pending; stopped = s.stopped ++ (room ∷ []) })
      (record {
        left = omega (arith, h.left, front-length here room s.pending e);
        once = h.once;
        pool = h.pool;
      })

run_closing-IsOrderly :
    (n : ℕ) (s : Teardown) → s.closings ≡ n → IsOrderly 0 s → IsOrderly 0 (run_closing n s)
unfolding close
run_closing-IsOrderly zero s e h = h
run_closing-IsOrderly (suc n) s e h = record {
  left = h.left;
  once = ground (arith, h.once, e);
  pool = ground (arith, h.pool, h.once, e);
}

pub step-IsOrderly : (o : Op) (s : Teardown) → IsOrderly 0 s → IsOrderly 0 (step o s)
unfolding step
step-IsOrderly (stops here) s h = run_front-IsOrderly here (front here s.pending) s refl h
step-IsOrderly shuts s h = run_closing-IsOrderly s.closings s refl h

pub run-IsOrderly : (os : List Op) (s : Teardown) → IsOrderly 0 s → IsOrderly 0 (run os s)
unfolding run
run-IsOrderly [] s h = h
run-IsOrderly (o ∷ os) s h = run-IsOrderly os (step o s) (step-IsOrderly o s h)

send_stop-IsOrderly :
    (loop room k : ℕ) (s : Teardown) → IsOrderly (suc k) s → IsOrderly k (send_stop loop room s)
unfolding send_stop stop_room
send_stop-IsOrderly loop room k s h = either (loop == 0)
  where
    either :
        (b : Bool)
        → IsOrderly k (
            if b
            then stop_room loop room s
            else record s { pending = s.pending ++ ((loop, room) ∷ []) })
    either true =
        finish_one-IsOrderly loop k (record s { stopped = s.stopped ++ (room ∷ []) })
          (record { left = h.left; once = h.once; pool = h.pool })
    either false = record {
      left = omega (arith, h.left, length-append s.pending ((loop, room) ∷ []));
      once = h.once;
      pool = h.pool;
    }

stop_rooms-IsOrderly :
    (rs : Map ℕ) (s : Teardown) → IsOrderly (length rs) s → IsOrderly 0 (stop_rooms rs s)
unfolding stop_rooms
stop_rooms-IsOrderly [] s h = h
stop_rooms-IsOrderly ((room, loop) ∷ rs) s h =
    stop_rooms-IsOrderly rs (send_stop loop room s) (send_stop-IsOrderly loop room (length rs) s h)

-- Before the loop over the rooms.
abbrev pub begun : Map ℕ → Teardown
unfolding serving
begun rooms = record (serving rooms) { driver = false; rooms = []; remain = length rooms }

pub tear_down-cons :
    (r : ℕ × ℕ) (rs : Map ℕ) → tear_down (serving (r ∷ rs)) ≡ stop_rooms (r ∷ rs) (begun (r ∷ rs))
unfolding tear_down serving
tear_down-cons r rs = if_false _ _ (let e : (suc (length rs) == 0) ≡ false = ground arith in e)

pub tear_down-IsOrderly : (rooms : Map ℕ) → IsOrderly 0 (tear_down (serving rooms))
unfolding tear_down serving close
tear_down-IsOrderly [] = record { left = refl; once = refl; pool = refl }
tear_down-IsOrderly (r ∷ rs) = subst (IsOrderly 0) (sym (tear_down-cons r rs)) (
    stop_rooms-IsOrderly (r ∷ rs) (begun (r ∷ rs))
      (record { left = omega arith; once = ground arith; pool = refl }))
