-- ===== src/Buffer/Copy.antt =====
-- net/Buffer.cc: the copies by `std::copy`, byte by byte from the front, and what they leave behind.
use my_game_server.Base.{
  ℕ, zero, suc, ◌+◌, ◌≤◌, ◌<◌, List, [], ◌∷◌, ◌++◌, length, set, get_or, ◌≡◌, refl, ap, ◌∙◌, arith,
  length-set, get_or-set_self, get_or-set_ne,
}

-- The `n` entries from index `i` on.
unfoldable pub slice : List ℕ → ℕ → ℕ → List ℕ
slice bs i zero = []
slice bs i (suc n) = get_or bs i 0 ∷ slice bs (suc i) n

-- `std::copy(xs, xs + n, begin + i)`.
unfoldable pub copy : List ℕ → ℕ → List ℕ → List ℕ
copy bs i [] = bs
copy bs i (x ∷ xs) = copy (set bs i x) (suc i) xs

-- `std::copy(begin + src, begin + src + n, begin + dst)`: each byte is read from the vector as the
-- writes before it left the vector.
unfoldable pub move_down : List ℕ → ℕ → ℕ → ℕ → List ℕ
move_down bs src dst zero = bs
move_down bs src dst (suc n) = move_down (set bs dst (get_or bs src 0)) (suc src) (suc dst) n

pub length-slice : (bs : List ℕ) (i n : ℕ) → length (slice bs i n) ≡ n
unfolding slice
length-slice bs i zero = refl
length-slice bs i (suc n) = ap suc (length-slice bs (suc i) n)

pub slice-append :
    (bs : List ℕ) (i m n : ℕ) → slice bs i (m + n) ≡ slice bs i m ++ slice bs (i + m) n
unfolding slice
slice-append bs i zero n = ground arith
slice-append bs i (suc m) n =
    let e : suc m + n ≡ suc (m + n) = omega arith in
    let f : suc i + m ≡ i + suc m = omega arith in
    rw e (ap (◌∷◌ (get_or bs i 0)) (rw f at (slice-append bs (suc i) m n)))

-- Two vectors that agree from `i` on for `n` entries.
pub slice-ext :
    (bs cs : List ℕ) (i n : ℕ)
    → ((j : ℕ) → i ≤ j → j < i + n → get_or bs j 0 ≡ get_or cs j 0)
    → slice bs i n ≡ slice cs i n
unfolding slice
slice-ext bs cs i zero e = refl
slice-ext bs cs i (suc n) e = rw (
  e i (omega arith) (omega arith),
  slice-ext bs cs (suc i) n (λ j lo hi. e j (omega arith) (omega arith)),
)

pub length-copy : (bs : List ℕ) (i : ℕ) (xs : List ℕ) → length (copy bs i xs) ≡ length bs
unfolding copy
length-copy bs i [] = refl
length-copy bs i (x ∷ xs) = length-copy (set bs i x) (suc i) xs ∙ length-set bs i x

pub get_or-copy_below :
    (bs : List ℕ) (i j : ℕ) (xs : List ℕ) → j < i → get_or (copy bs i xs) j 0 ≡ get_or bs j 0
unfolding copy
get_or-copy_below bs i j [] h = refl
get_or-copy_below bs i j (x ∷ xs) h =
    get_or-copy_below (set bs i x) (suc i) j xs (omega arith)
    ∙ get_or-set_ne bs i j x 0 (omega arith)

pub slice-copy :
    (bs : List ℕ) (i : ℕ) (xs : List ℕ)
    → i + length xs ≤ length bs
    → slice (copy bs i xs) i (length xs) ≡ xs
unfolding copy slice
slice-copy bs i [] h = refl
slice-copy bs i (x ∷ xs) h = rw (
  slice-copy (set bs i x) (suc i) xs (omega (arith, length-set bs i x)),
  get_or-copy_below (set bs i x) (suc i) i xs (omega arith),
  get_or-set_self bs i x 0 (omega arith),
)

pub length-move_down : (bs : List ℕ) (src dst n : ℕ) → length (move_down bs src dst n) ≡ length bs
unfolding move_down
length-move_down bs src dst zero = refl
length-move_down bs src dst (suc n) =
    length-move_down (set bs dst (get_or bs src 0)) (suc src) (suc dst) n
    ∙ length-set bs dst (get_or bs src 0)

get_or-move_down_below :
    (bs : List ℕ) (src dst n j : ℕ) → j < dst → get_or (move_down bs src dst n) j 0 ≡ get_or bs j 0
unfolding move_down
get_or-move_down_below bs src dst zero j h = refl
get_or-move_down_below bs src dst (suc n) j h =
    get_or-move_down_below (set bs dst (get_or bs src 0)) (suc src) (suc dst) n j (omega arith)
    ∙ get_or-set_ne bs dst j (get_or bs src 0) 0 (omega arith)

-- Moving bytes towards the front copies them unharmed, also where source and target overlap.
pub slice-move_down :
    (bs : List ℕ) (src dst n : ℕ)
    → dst ≤ src
    → src + n ≤ length bs
    → slice (move_down bs src dst n) dst n ≡ slice bs src n
unfolding move_down slice
slice-move_down bs src dst zero h k = refl
slice-move_down bs src dst (suc n) h k =
    let bs' = set bs dst (get_or bs src 0) in
    rw (
      get_or-move_down_below bs' (suc src) (suc dst) n dst (omega arith),
      get_or-set_self bs dst (get_or bs src 0) 0 (omega arith),
      slice-move_down bs' (suc src) (suc dst) n (omega arith)
          (omega (arith, length-set bs dst (get_or bs src 0))),
      slice-ext bs' bs (suc src) n
          (λ j lo hi. get_or-set_ne bs dst j (get_or bs src 0) 0 (omega arith)),
    )
