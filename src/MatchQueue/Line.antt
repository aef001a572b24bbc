-- ===== src/MatchQueue/Line.antt =====
-- game/MatchQueue.h: the queue as a line of players, and what each operation does to the line.
use my_game_server.Base.{
  ℕ, true, if◌then◌else◌, List, [], ◌∷◌, length, ◌≡◌, refl, ◌∙◌, arith, inl, inr, Bool-cases, sym,
}
use my_game_server.Base.IdSet.{
  mem-append, mem-cons, mem_single, mem, IsDistinct, mem-erase, mem-insert, insert-IsDistinct,
  erase-IsDistinct, length-erase,
}
use my_game_server.Base.IdSet
use my_game_server.MatchQueue.{MatchQueue, push, remove, drop_stale, compact}

-- The players of `waiting` at their first place in `order`: whom the queue serves, in this order.
unfoldable pub line_of : List ℕ → List ℕ → List ℕ
line_of waiting [] = []
line_of waiting (x ∷ xs) =
    if mem x waiting then x ∷ line_of (IdSet.erase x waiting) xs else line_of waiting xs

abbrev pub line : MatchQueue → List ℕ
line q = line_of q.waiting q.order

-- The set has no repetition, and each player in it stands in the deque.
pub record IsValid (q : MatchQueue) : Type 0 where
  pub distinct : IsDistinct q.waiting
  pub placed : (id : ℕ) → mem id q.waiting ≡ true → mem id q.order ≡ true

pub push-IsValid : (q : MatchQueue) (id : ℕ) → IsValid q → IsValid (push q id).0
unfolding push
push-IsValid q id v = elim (Bool-cases (mem id q.waiting)) [
  | inl old ↦ rw (old, push) v
  | inr new ↦
      rw (new, push)
        (record {
          distinct = insert-IsDistinct id q.waiting v.distinct;
          placed = λ j h. ground (
            arith,
            mem-append j q.order (id ∷ []),
            mem_single j id,
            mem-insert id j q.waiting,
            v.placed j,
          );
        })
]

pub remove-IsValid : (q : MatchQueue) (id : ℕ) → IsValid q → IsValid (remove q id)
unfolding remove
remove-IsValid q id v = record {
  distinct = erase-IsDistinct id q.waiting v.distinct;
  placed = λ j h. ground (arith, mem-erase id j q.waiting, v.placed j);
}

pub mem-drop_stale : (w xs : List ℕ) (j : ℕ) → mem j w ≡ true → mem j (drop_stale w xs) ≡ mem j xs
unfolding mem drop_stale
mem-drop_stale w [] j h = refl
mem-drop_stale w (x ∷ xs) j h = ground (arith, mem-drop_stale w xs j h)

pub compact-IsValid : (q : MatchQueue) → IsValid q → IsValid (compact q)
unfolding compact
compact-IsValid q v = record {
  distinct = v.distinct;
  placed = λ j h. mem-drop_stale q.waiting q.order j h ∙ v.placed j h;
}

pub line-drop_stale : (w xs : List ℕ) → line_of w (drop_stale w xs) ≡ line_of w xs
unfolding line_of drop_stale
line-drop_stale w [] = refl
line-drop_stale w (x ∷ xs) = ground (arith, line-drop_stale w xs)

-- Skipping the players who were removed leaves the line as it is.
pub line-compact : (q : MatchQueue) → line (compact q) ≡ line q
unfolding compact
line-compact q = line-drop_stale q.waiting q.order

no_members : (w : List ℕ) → ((j : ℕ) → mem j w ≡ true → mem j [] ≡ true) → length w ≡ 0
unfolding mem
no_members [] p = refl
no_members (y ∷ w) p = ground (arith, p y)

-- In a valid queue nobody who waits is missing from the line.
pub length-line_of :
    (w xs : List ℕ)
    → IsDistinct w
    → ((j : ℕ) → mem j w ≡ true → mem j xs ≡ true)
    → length (line_of w xs) ≡ length w
unfolding line_of
length-line_of w [] d p = sym (no_members w p)
length-line_of w (x ∷ xs) d p = elim (Bool-cases (mem x w)) [
  | inl here ↦ rw here (
      omega (
        arith,
        length-line_of (IdSet.erase x w) xs (erase-IsDistinct x w d)
            (λ j h. ground (arith, mem-erase x j w, p j, mem-cons j x xs)),
        length-erase x w d here,
      ))
  | inr gone ↦ rw gone (length-line_of w xs d (λ j h. ground (arith, p j h, mem-cons j x xs)))
]
