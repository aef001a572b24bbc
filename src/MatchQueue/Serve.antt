-- ===== src/MatchQueue/Serve.antt =====
-- game/MatchQueue.h: `popPair` serves the front of the line, and never reads an empty deque.
use my_game_server.Base.{
  ℕ, ◌==◌, true, false, if◌then◌else◌, List, [], ◌∷◌, Option, none, some, length, ◌≡◌, refl, ◌∙◌,
  arith, inl, inr, Bool-cases, sym, ap, ◌<◌, ◌≤◌, lt→ltb, le→ltb,
}
use my_game_server.Base.IdSet.{mem, mem-cons, mem-erase, erase-IsDistinct}
use my_game_server.Base.IdSet
use my_game_server.MatchQueue.{
  MatchQueue, empty, contains, drop_stale, compact, take_front, pop_pair, take_both, Op, pushes,
  removes, pops, step, run,
}
use my_game_server.MatchQueue.Line.{
  line_of, line, IsValid, push-IsValid, remove-IsValid, compact-IsValid, line-compact,
  length-line_of, mem-drop_stale,
}

-- What a queue of players promises: the pair at the front, if there is one, and the line behind it.
unfoldable pub serve : List ℕ → Option (ℕ × ℕ) × List ℕ
serve [] = (none, [])
serve (a ∷ []) = (none, a ∷ [])
serve (a ∷ b ∷ rest) = (some (a, b), rest)

front_of_line :
    (w xs : List ℕ) (a : ℕ) (rest : List ℕ)
    → line_of w xs ≡ a ∷ rest
    → (ys : List ℕ) × (drop_stale w xs ≡ a ∷ ys)
      × (line_of (IdSet.erase a w) ys ≡ rest)
      × (mem a w ≡ true)
unfolding line_of drop_stale
front_of_line w [] a rest e = cc
front_of_line w (x ∷ xs) a rest e = elim (Bool-cases (mem x w)) [
  | inl here ↦
      let f : x ∷ line_of (IdSet.erase x w) xs ≡ a ∷ rest = rw here at e in
      (xs, rw here (ground arith), ground arith, ground arith)
  | inr gone ↦ rw (gone, drop_stale) (front_of_line w xs a rest (rw gone at e))
]

-- The player at the front of the line, and the queue without that player.
pub take_front_lem :
    (q : MatchQueue) (a : ℕ) (rest : List ℕ)
    → IsValid q
    → line q ≡ a ∷ rest
    → (q' : MatchQueue) × (take_front q ≡ some (a, q'))
      × (line q' ≡ rest)
      × IsValid q'
      × ((j : ℕ) → contains q' j ≡ (if a == j then false else contains q j))
unfolding take_front contains
take_front_lem q a rest v e =
    let (ys, d, l, m) = front_of_line q.waiting q.order a rest e in
    let q' : MatchQueue = record { order = ys; waiting = IdSet.erase a q.waiting } in
    (
      q',
      rw (d, take_front),
      l,
      record {
        distinct = erase-IsDistinct a q.waiting v.distinct;
        placed = λ j h. ground (
          arith,
          mem-erase a j q.waiting,
          mem-drop_stale q.waiting q.order j,
          v.placed j,
          ap (mem j) d,
          mem-cons j a ys,
        );
      },
      λ j. mem-erase a j q.waiting,
    )

abbrev Served : MatchQueue → Option (ℕ × ℕ) × List ℕ → Option (Option (ℕ × ℕ) × MatchQueue) → Type 0
Served q (pair, rest) r = (q' : MatchQueue) × (r ≡ some (pair, q')) × (line q' ≡ rest) × IsValid q'

pub waiting-line : (q : MatchQueue) → IsValid q → length q.waiting ≡ length (line q)
waiting-line q v = sym (length-line_of q.waiting q.order v.distinct v.placed)

pub pop_pair_few : (q : MatchQueue) → length q.waiting < 2 → pop_pair q ≡ some (none, compact q)
unfolding pop_pair
pop_pair_few q h = rw (lt→ltb _ 2 h)

pub pop_pair_many :
    (q : MatchQueue) → 2 ≤ length q.waiting → pop_pair q ≡ take_both (take_front (compact q))
unfolding pop_pair
pop_pair_many q h = rw (le→ltb _ 2 h)

pop_pair-Served :
    (q : MatchQueue) (l : List ℕ) → IsValid q → line q ≡ l → Served q (serve l) (pop_pair q)
unfolding serve
pop_pair-Served q [] v e =
    let n = waiting-line q v ∙ ap length e in
    (compact q, pop_pair_few q (omega arith), line-compact q ∙ e, compact-IsValid q v)
pop_pair-Served q (a ∷ []) v e =
    let n = waiting-line q v ∙ ap length e in
    (compact q, pop_pair_few q (omega arith), line-compact q ∙ e, compact-IsValid q v)
pop_pair-Served q (a ∷ b ∷ rest) v e =
    let n = waiting-line q v ∙ ap length e in
    let (q1, e1, l1, v1, _) =
      take_front_lem (compact q) a (b ∷ rest) (compact-IsValid q v) (line-compact q ∙ e) in
    let (q2, e2, l2, v2, _) = take_front_lem q1 b rest v1 l1 in
    (q2, pop_pair_many q (omega arith) ∙ rw (e1, take_both, e2), l2, v2)

-- A valid queue answers `popPair` without reading an empty deque, with the pair at the front of its
-- line if two players wait and with nothing otherwise; the rest of the line stays, and so does the
-- validity.
pub pop_pair_refines :
    (q : MatchQueue)
    → IsValid q
    → (q' : MatchQueue) × (pop_pair q ≡ some ((serve (line q)).0, q'))
      × (line q' ≡ (serve (line q)).1)
      × IsValid q'
pop_pair_refines q v = pop_pair-Served q (line q) v refl

step-IsValid :
    (q : MatchQueue) (o : Op) → IsValid q → (q' : MatchQueue) × (step q o ≡ some q') × IsValid q'
unfolding step
step-IsValid q (pushes id) v = (_, refl, push-IsValid q id v)
step-IsValid q (removes id) v = (_, refl, remove-IsValid q id v)
step-IsValid q pops v = let (q', e, _, w) = pop_pair_refines q v in (q', rw e, w)

run-IsValid :
    (os : List Op) (q : MatchQueue)
    → IsValid q
    → (q' : MatchQueue) × (run os q ≡ some q') × IsValid q'
unfolding run
run-IsValid [] q v = (q, refl, v)
run-IsValid (o ∷ os) q v =
    let (q1, e1, v1) = step-IsValid q o v in
    let (q2, e2, v2) = run-IsValid os q1 v1 in (q2, rw (e1, e2), v2)

pub empty-IsValid : IsValid empty
unfolding mem
empty-IsValid = record { distinct = tt; placed = λ id h. h }

-- Whatever is pushed, removed and popped, in whatever order, a queue that starts empty never reads an
-- empty deque; each player who waits stands in its line once.
pub run-empty-IsValid :
    (os : List Op)
    → (q : MatchQueue) × (run os empty ≡ some q) × IsValid q × (length (line q) ≡ length q.waiting)
run-empty-IsValid os =
    let (q, e, v) = run-IsValid os empty empty-IsValid in (q, e, v, sym (waiting-line q v))
