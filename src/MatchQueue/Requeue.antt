-- ===== src/MatchQueue/Requeue.antt =====
-- game/MatchQueue.h: where `push` puts a player. The entry that lazy removal leaves in the deque
-- decides the place of a player who comes back.
use my_game_server.Base.{ℕ, true, false, List, [], ◌∷◌, ◌++◌, ◌≡◌, refl, ◌∙◌, arith, ap}
use my_game_server.Base.IdSet.{mem, mem-cons, mem-erase, mem-insert}
use my_game_server.Base.IdSet
use my_game_server.MatchQueue.{MatchQueue, push, remove}
use my_game_server.MatchQueue.Line.{line_of, line, IsValid}

-- Only membership counts, and only that of the players in the deque.
line_of-ext :
    (w w' xs : List ℕ)
    → ((j : ℕ) → mem j xs ≡ true → mem j w ≡ mem j w')
    → line_of w xs ≡ line_of w' xs
unfolding line_of
line_of-ext w w' [] e = refl
line_of-ext w w' (x ∷ xs) e = ground (
  arith,
  e x,
  mem-cons x x xs,
  line_of-ext w w' xs (λ j m. e j (ground (arith, mem-cons j x xs))),
  line_of-ext (IdSet.erase x w) (IdSet.erase x w') xs
      (λ j m. ground (arith, e j, mem-cons j x xs, mem-erase x j w, mem-erase x j w')),
)

line_of-append_absent :
    (w xs : List ℕ) (id : ℕ) → mem id w ≡ false → line_of w (xs ++ (id ∷ [])) ≡ line_of w xs
unfolding line_of
line_of-append_absent w [] id h = rw h
line_of-append_absent w (x ∷ xs) id h = ground (
  arith,
  line_of-append_absent w xs id h,
  line_of-append_absent (IdSet.erase x w) xs id (ground (arith, mem-erase x id w)),
)

line_of-append_old :
    (w xs : List ℕ) (id : ℕ) → mem id xs ≡ true → line_of w (xs ++ (id ∷ [])) ≡ line_of w xs
unfolding line_of mem
line_of-append_old w [] id h = ground arith
line_of-append_old w (x ∷ xs) id h = ground (
  arith,
  line_of-append_absent (IdSet.erase x w) xs id,
  line_of-append_absent w xs id,
  mem-erase x id w,
  line_of-append_old w xs id,
  line_of-append_old (IdSet.erase x w) xs id,
)

line_of-append_new :
    (w xs : List ℕ) (id : ℕ)
    → mem id xs ≡ false
    → mem id w ≡ true
    → line_of w (xs ++ (id ∷ [])) ≡ line_of w xs ++ (id ∷ [])
unfolding line_of mem
line_of-append_new w [] id h k = rw k
line_of-append_new w (x ∷ xs) id h k = ground (
  arith,
  mem-erase x id w,
  line_of-append_new w xs id,
  line_of-append_new (IdSet.erase x w) xs id,
)

-- A player of whom the deque holds no entry, old or new, joins at the end of the line.
pub line-push_fresh :
    (q : MatchQueue) (id : ℕ)
    → mem id q.waiting ≡ false
    → mem id q.order ≡ false
    → ((push q id).1 ≡ true) × (line (push q id).0 ≡ line q ++ (id ∷ []))
unfolding push
line-push_fresh q id out new = rw (out, push) (refl, grown ∙ ap (λ l. l ++ (id ∷ [])) same)
  where
    grown :
        line_of (IdSet.insert id q.waiting) (q.order ++ (id ∷ []))
        ≡ line_of (IdSet.insert id q.waiting) q.order ++ (id ∷ [])
    grown =
        line_of-append_new (IdSet.insert id q.waiting) q.order id new
          (ground (arith, mem-insert id id q.waiting))

    same : line_of (IdSet.insert id q.waiting) q.order ≡ line q
    same =
        line_of-ext (IdSet.insert id q.waiting) q.waiting q.order
          (λ j m. ground (arith, mem-insert id j q.waiting))

-- A player who waits, is removed and pushes again is let in, and stands where it stood before, not at
-- the end of the line: no player who joined in the meantime is served first for it.
pub line-push-remove :
    (q : MatchQueue) (id : ℕ)
    → IsValid q
    → mem id q.waiting ≡ true
    → ((push (remove q id) id).1 ≡ true) × (line (push (remove q id) id).0 ≡ line q)
unfolding push remove
line-push-remove q id v here = rw (out, push) (refl, old ∙ same)
  where
    out : mem id (IdSet.erase id q.waiting) ≡ false
    out = ground (arith, mem-erase id id q.waiting)

    old :
        line_of (IdSet.insert id (IdSet.erase id q.waiting)) (q.order ++ (id ∷ []))
        ≡ line_of (IdSet.insert id (IdSet.erase id q.waiting)) q.order
    old =
        line_of-append_old (IdSet.insert id (IdSet.erase id q.waiting)) q.order id
          (v.placed id here)

    same : line_of (IdSet.insert id (IdSet.erase id q.waiting)) q.order ≡ line q
    same =
        line_of-ext _ q.waiting q.order λ j m.
          ground (arith, mem-insert id j (IdSet.erase id q.waiting), mem-erase id j q.waiting)
