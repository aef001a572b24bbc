-- ===== src/Lobby/Teardown/Releases.antt =====
-- game/GameServer.cc, the destructor: each room is stopped once, on its loop, and the main thread is
-- released once, after all of them.
use my_game_server.Base.{
  ℕ, zero, suc, ◌+◌, ◌==◌, if◌then◌else◌, Bool, true, false, List, [], ◌∷◌, ◌++◌, Option, none,
  some, length, ◌≡◌, refl, sym, ap, ◌∙◌, arith,
}
use my_game_server.Base.Map.{Map, keys}
use my_game_server.Lobby.Teardown.{
  Teardown, serving, close, finish_one, stop_room, send_stop, stop_rooms, tear_down, front,
  drop_front, run_front, run_closing, Op, stops, shuts, step, run,
}
use my_game_server.Lobby.Teardown.Orderly.{
  IsOrderly, run-IsOrderly, step-IsOrderly, tear_down-IsOrderly, tear_down-cons, begun,
}

-- How often a room is in a list.
unfoldable pub times : ℕ → List ℕ → ℕ
times r [] = 0
times r (x ∷ xs) = if x == r then 1 + times r xs else times r xs

-- The rooms of pending functors.
unfoldable pub ids : List (ℕ × ℕ) → List ℕ
ids [] = []
ids ((l, r) ∷ ps) = r ∷ ids ps

ids-append : (ps qs : List (ℕ × ℕ)) → ids (ps ++ qs) ≡ ids ps ++ ids qs
unfolding ids
ids-append [] qs = refl
ids-append ((l, r) ∷ ps) qs = ap (◌∷◌ r) (ids-append ps qs)

times-append : (r : ℕ) (xs ys : List ℕ) → times r (xs ++ ys) ≡ times r xs + times r ys
unfolding times
times-append r [] ys = omega arith
times-append r (x ∷ xs) ys = ground (arith, times-append r xs ys)

front-times :
    (here room x : ℕ) (ps : List (ℕ × ℕ))
    → front here ps ≡ some room
    → times x (ids ps) ≡ times x (room ∷ []) + times x (ids (drop_front here ps))
unfolding front drop_front times ids
front-times here room x [] e = ground (arith, e)
front-times here room x ((l, r) ∷ ps) e = ground (arith, e, front-times here room x ps)

-- How often a room is among those that were stopped or whose stop waits.
abbrev seen : ℕ → Teardown → ℕ
seen r s = times r s.stopped + times r (ids s.pending)

seen-finish_one : (here r : ℕ) (s : Teardown) → seen r (finish_one here s) ≡ seen r s
unfolding finish_one close
seen-finish_one here r s = ground arith

seen-run_front :
    (here r : ℕ) (o : Option ℕ) (s : Teardown)
    → front here s.pending ≡ o
    → seen r (run_front here o s) ≡ seen r s
unfolding stop_room
seen-run_front here r none s e = refl
seen-run_front here r (some room) s e =
    seen-finish_one here r
      (record s { pending = drop_front here s.pending; stopped = s.stopped ++ (room ∷ []) })
    ∙ omega (arith, times-append r s.stopped (room ∷ []), front-times here room r s.pending e)

seen-run_closing : (n r : ℕ) (s : Teardown) → seen r (run_closing n s) ≡ seen r s
unfolding close
seen-run_closing zero r s = refl
seen-run_closing (suc n) r s = refl

seen-step : (o : Op) (r : ℕ) (s : Teardown) → seen r (step o s) ≡ seen r s
unfolding step
seen-step (stops here) r s = seen-run_front here r (front here s.pending) s refl
seen-step shuts r s = seen-run_closing s.closings r s

seen-run : (os : List Op) (r : ℕ) (s : Teardown) → seen r (run os s) ≡ seen r s
unfolding run
seen-run [] r s = refl
seen-run (o ∷ os) r s = seen-run os r (step o s) ∙ seen-step o r s

seen-send_stop :
    (loop room r : ℕ) (s : Teardown)
    → seen r (send_stop loop room s) ≡ seen r s + times r (room ∷ [])
unfolding send_stop stop_room ids
seen-send_stop loop room r s = either (loop == 0)
  where
    either :
        (b : Bool)
        → seen r (
            if b
            then stop_room loop room s
            else record s { pending = s.pending ++ ((loop, room) ∷ []) })
          ≡ seen r s + times r (room ∷ [])
    either true =
        seen-finish_one loop r (record s { stopped = s.stopped ++ (room ∷ []) })
        ∙ omega (arith, times-append r s.stopped (room ∷ []))
    either false = omega (
      arith,
      ap (times r) (ids-append s.pending ((loop, room) ∷ [])),
      times-append r (ids s.pending) (room ∷ []),
    )

seen-stop_rooms :
    (rs : Map ℕ) (r : ℕ) (s : Teardown) → seen r (stop_rooms rs s) ≡ seen r s + times r (keys rs)
unfolding stop_rooms times keys
seen-stop_rooms [] r s = omega arith
seen-stop_rooms ((room, loop) ∷ rs) r s =
    seen-stop_rooms rs r (send_stop loop room s) ∙ ground (arith, seen-send_stop loop room r s)

seen-tear_down : (rooms : Map ℕ) (r : ℕ) → seen r (tear_down (serving rooms)) ≡ times r (keys rooms)
unfolding tear_down serving close times keys ids
seen-tear_down [] r = refl
seen-tear_down (x ∷ rs) r =
    ap (seen r) (tear_down-cons x rs) ∙ (seen-stop_rooms (x ∷ rs) r (begun (x ∷ rs)) ∙ omega arith)

abbrev Torn : ℕ → List Op → Map ℕ → Type 0
Torn r os rooms =
    IsOrderly 0 (run os (tear_down (serving rooms)))
    × (seen r (run os (tear_down (serving rooms))) ≡ times r (keys rooms))

run-Torn : (r : ℕ) (os : List Op) (rooms : Map ℕ) → Torn r os rooms
run-Torn r os rooms =
    (run-IsOrderly os _ (tear_down-IsOrderly rooms), seen-run os r _ ∙ seen-tear_down rooms r)

none_left : (ps : List (ℕ × ℕ)) → length ps ≡ 0 → ps ≡ []
none_left [] e = refl
none_left (p ∷ ps) e = absurd (omega (arith, e))

-- In whatever order the loops of the rooms and of the lobby run the functors that the destructor sends
-- them: once the pool of the game threads is closed, the main thread was released exactly once, no functor
-- waits for a loop of the pool, and each room was stopped exactly as often as the lobby had it.
pub run-closed :
    (rooms : Map ℕ) (os : List Op) (r : ℕ)
    → (run os (tear_down (serving rooms))).pool ≡ false
    → let s = run os (tear_down (serving rooms)) in
      (s.released ≡ 1) × (s.pending ≡ []) × (times r s.stopped ≡ times r (keys rooms))
unfolding ids times
run-closed rooms os r e =
    let s = run os (tear_down (serving rooms)) in
    let (h, n) = run-Torn r os rooms in
    let z = none_left s.pending (ground (arith, e, h.left, h.once, h.pool)) in
    (ground (arith, e, h.once, h.pool), z, omega (arith, n, ap (λ ps. times r (ids ps)) z))

-- What is left to run, in an order that the loops allow.
unfoldable pub rest_of : List (ℕ × ℕ) → List Op
rest_of [] = shuts ∷ []
rest_of ((loop, room) ∷ ps) = stops loop ∷ rest_of ps

pending-finish_one : (here : ℕ) (s : Teardown) → (finish_one here s).pending ≡ s.pending
unfolding finish_one close
pending-finish_one here s = ground arith

pending-run_front :
    (here room : ℕ) (o : Option ℕ) (s : Teardown)
    → o ≡ some room
    → (run_front here o s).pending ≡ drop_front here s.pending
unfolding stop_room
pending-run_front here room none s e = ground (arith, e)
pending-run_front here room (some x) s e =
    pending-finish_one here
      (record s { pending = drop_front here s.pending; stopped = s.stopped ++ (x ∷ []) })

front-head : (loop room : ℕ) (ps : List (ℕ × ℕ)) → front loop ((loop, room) ∷ ps) ≡ some room
unfolding front
front-head loop room ps = ground arith

drop_front-head : (loop room : ℕ) (ps : List (ℕ × ℕ)) → drop_front loop ((loop, room) ∷ ps) ≡ ps
unfolding drop_front
drop_front-head loop room ps = ground arith

pending-stops :
    (loop room : ℕ) (ps : List (ℕ × ℕ)) (s : Teardown)
    → s.pending ≡ (loop, room) ∷ ps
    → (step (stops loop) s).pending ≡ ps
unfolding step
pending-stops loop room ps s e =
    ap (λ q. (run_front loop (front loop q) (record s { pending = q })).pending) e
    ∙ (pending-run_front loop room (front loop ((loop, room) ∷ ps)) _ (front-head loop room ps)
        ∙ drop_front-head loop room ps)

pool-run_closing :
    (n : ℕ) (s : Teardown)
    → s.closings ≡ n
    → s.pending ≡ []
    → IsOrderly 0 s
    → (run_closing n s).pool ≡ false
unfolding close
pool-run_closing zero s c e h = ground (arith, c, ap length e, h.left, h.once, h.pool)
pool-run_closing (suc n) s c e h = refl

pool-rest_of :
    (ps : List (ℕ × ℕ)) (s : Teardown)
    → s.pending ≡ ps
    → IsOrderly 0 s
    → (run (rest_of ps) s).pool ≡ false
unfolding run rest_of step
pool-rest_of [] s e h = pool-run_closing s.closings s refl e h
pool-rest_of ((loop, room) ∷ ps) s e h =
    pool-rest_of ps (step (stops loop) s) (pending-stops loop room ps s e)
      (step-IsOrderly (stops loop) s h)

run-append : (os ps : List Op) (s : Teardown) → run (os ++ ps) s ≡ run ps (run os s)
unfolding run
run-append [] ps s = refl
run-append (o ∷ os) ps s = run-append os ps (step o s)

-- The destructor ends: whatever the loops have run, once they run what still waits, the pool of the game
-- threads is closed and the main thread has been released, once, with each room stopped as often as the
-- lobby had it.
pub run-releases :
    (rooms : Map ℕ) (os : List Op) (r : ℕ)
    → let s = run os (tear_down (serving rooms)) in
      let s' = run (rest_of s.pending) s in
      (s'.released ≡ 1) × (s'.pool ≡ false) × (times r s'.stopped ≡ times r (keys rooms))
run-releases rooms os r =
    let s = run os (tear_down (serving rooms)) in
    let rest = rest_of s.pending in
    let closed = pool-rest_of s.pending s refl (run-Torn r os rooms).0 in
    let all = run-append os rest (tear_down (serving rooms)) in
    let (n, p, t) = run-closed rooms (os ++ rest) r (ap (λ q. q.pool) all ∙ closed) in
    (ap (λ q. q.released) (sym all) ∙ n, closed, ap (λ q. times r q.stopped) (sym all) ∙ t)
