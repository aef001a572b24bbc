-- ===== src/MatchQueue/Members.antt =====
-- game/MatchQueue.h: which players wait after `popPair`.
use my_game_server.Base.{
  ℕ, ◌==◌, true, false, if◌then◌else◌, List, [], ◌∷◌, ◌++◌, Option, none, some, length, ◌≡◌, ◌⊎◌,
  refl, ◌∙◌, arith, inl, inr, ap,
}
use my_game_server.Base.IdSet.{mem, mem-cons, mem-erase, mem-insert}
use my_game_server.Base.IdSet
use my_game_server.MatchQueue.{MatchQueue, push, remove, contains, compact, take_both, pop_pair}
use my_game_server.MatchQueue.Line.{line_of, line, IsValid, compact-IsValid, line-compact}
use my_game_server.MatchQueue.Serve.{take_front_lem, pop_pair_many, pop_pair_few, waiting-line}

mem-line_of : (w xs : List ℕ) (j : ℕ) → mem j (line_of w xs) ≡ true → mem j w ≡ true
unfolding mem line_of
mem-line_of w [] j h = cc
mem-line_of w (x ∷ xs) j h =
    ground (arith, mem-line_of (IdSet.erase x w) xs j, mem-line_of w xs j, mem-erase x j w)

front_waits : (q : MatchQueue) (a : ℕ) (rest : List ℕ) → line q ≡ a ∷ rest → contains q a ≡ true
unfolding contains
front_waits q a rest e =
    mem-line_of q.waiting q.order a (ap (mem a) e ∙ ground (arith, mem-cons a a rest))

-- Nobody is taken, and the same players wait.
abbrev pub Kept : MatchQueue → MatchQueue → Type 0
Kept q q' = IsValid q' × ((j : ℕ) → contains q' j ≡ contains q j)

-- `a` and `b` are two players who waited, and all the others still wait.
abbrev pub Taken : MatchQueue → ℕ → ℕ → MatchQueue → Type 0
Taken q a b q' =
    IsValid q'
    × (contains q a ≡ true)
    × (contains q b ≡ true)
    × ((a == b) ≡ false)
    × ((j : ℕ) → contains q' j ≡ (if a == j then false else if b == j then false else contains q j))

abbrev pub Popped : MatchQueue → Option (Option (ℕ × ℕ) × MatchQueue) → Type 0
Popped q r =
    ((q' : MatchQueue) × (r ≡ some (none, q')) × Kept q q')
    ⊎ ((a : ℕ) × (b : ℕ) × (q' : MatchQueue) × (r ≡ some (some (a, b), q')) × Taken q a b q')

contains-compact : (q : MatchQueue) (j : ℕ) → contains (compact q) j ≡ contains q j
unfolding contains compact
contains-compact q j = refl

line-Popped : (q : MatchQueue) (l : List ℕ) → IsValid q → line q ≡ l → Popped q (pop_pair q)
line-Popped q [] v e =
    let n = waiting-line q v ∙ ap length e in
    inl (compact q, pop_pair_few q (omega arith), (compact-IsValid q v, contains-compact q))
line-Popped q (a ∷ []) v e =
    let n = waiting-line q v ∙ ap length e in
    inl (compact q, pop_pair_few q (omega arith), (compact-IsValid q v, contains-compact q))
line-Popped q (a ∷ b ∷ rest) v e =
    let n = waiting-line q v ∙ ap length e in
    let (q1, e1, l1, v1, c1) =
      take_front_lem (compact q) a (b ∷ rest) (compact-IsValid q v) (line-compact q ∙ e) in
    let (q2, e2, l2, v2, c2) = take_front_lem q1 b rest v1 l1 in
    let wb = front_waits q1 b rest l1 in
    inr (
      a,
      b,
      q2,
      pop_pair_many q (omega arith) ∙ rw (e1, take_both, e2),
      (
        v2,
        front_waits q a (b ∷ rest) e,
        ground (arith, wb, c1 b, contains-compact q b),
        ground (arith, wb, c1 b),
        λ j. ground (arith, c1 j, c2 j, contains-compact q j),
      ),
    )

-- `popPair` takes two players who wait, or none.
pub pop_pair-Popped : (q : MatchQueue) → IsValid q → Popped q (pop_pair q)
pop_pair-Popped q v = line-Popped q (line q) v refl

pub contains-remove :
    (q : MatchQueue) (id j : ℕ)
    → contains (remove q id) j ≡ (if id == j then false else contains q j)
unfolding contains remove
contains-remove q id j = mem-erase id j q.waiting

-- A player who does not wait is let in.
pub push_new :
    (q : MatchQueue) (id : ℕ)
    → contains q id ≡ false
    → (q' : MatchQueue) × (push q id ≡ (q', true))
      × ((j : ℕ) → contains q' j ≡ (if id == j then true else contains q j))
unfolding contains push
push_new q id out = (
  record { order = q.order ++ (id ∷ []); waiting = IdSet.insert id q.waiting },
  rw out refl,
  λ j. mem-insert id j q.waiting,
)
