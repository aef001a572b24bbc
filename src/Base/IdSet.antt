-- ===== src/Base/IdSet.antt =====
-- `std::unordered_set<uint64_t>`: the members, in iteration order.
use Prim.Native.Nat.{ℕ, suc}
use mathlib.Core.Path.{◌≡◌, refl}
use mathlib.Core.List.{List, [], ◌∷◌, ◌++◌}
use mathlib.Core.Bool.{Bool, true, false}
use native.Mathlib.Omega.{arith}
use my_game_server.Base.Tests.{◌==◌, if◌then◌else◌}
use my_game_server.Base.Lists.{length}

-- `count(x)`.
unfoldable pub mem : ℕ → List ℕ → Bool
mem x [] = false
mem x (y ∷ ys) = if y == x then true else mem x ys

-- `insert(x)`: nothing happens to a member.
unfoldable pub insert : ℕ → List ℕ → List ℕ
insert x ys = if mem x ys then ys else x ∷ ys

-- `erase(x)`.
unfoldable pub erase : ℕ → List ℕ → List ℕ
erase x [] = []
erase x (y ∷ ys) = if y == x then erase x ys else y ∷ erase x ys

-- No member stands twice, so that `length` is `size()`.
abbrev pub IsDistinct : List ℕ → Type 0
IsDistinct [] = Unit
IsDistinct (x ∷ xs) = (mem x xs ≡ false) × IsDistinct xs

pub mem-append : (x : ℕ) (xs ys : List ℕ) → mem x (xs ++ ys) ≡ (if mem x xs then true else mem x ys)
unfolding mem
mem-append x [] ys = refl
mem-append x (y ∷ xs) ys = ground (arith, mem-append x xs ys)

pub mem-nil : (x : ℕ) → mem x [] ≡ false
unfolding mem
mem-nil x = refl

pub mem-cons : (x y : ℕ) (ys : List ℕ) → mem x (y ∷ ys) ≡ (if y == x then true else mem x ys)
unfolding mem
mem-cons x y ys = refl

pub mem_single : (x y : ℕ) → mem x (y ∷ []) ≡ (y == x)
unfolding mem
mem_single x y = ground arith

pub mem-insert : (x y : ℕ) (s : List ℕ) → mem y (insert x s) ≡ (if x == y then true else mem y s)
unfolding mem insert
mem-insert x y s = ground arith

pub mem-erase : (x y : ℕ) (s : List ℕ) → mem y (erase x s) ≡ (if x == y then false else mem y s)
unfolding mem erase
mem-erase x y [] = ground arith
mem-erase x y (z ∷ s) = ground (arith, mem-erase x y s)

pub insert-IsDistinct : (x : ℕ) (s : List ℕ) → IsDistinct s → IsDistinct (insert x s)
unfolding insert
insert-IsDistinct x s h = ground arith

pub erase-IsDistinct : (x : ℕ) (s : List ℕ) → IsDistinct s → IsDistinct (erase x s)
unfolding erase
erase-IsDistinct x [] h = tt
erase-IsDistinct x (y ∷ s) h = ground (arith, erase-IsDistinct x s h.1, mem-erase x y s)

pub erase-absent : (x : ℕ) (s : List ℕ) → mem x s ≡ false → erase x s ≡ s
unfolding mem erase
erase-absent x [] h = refl
erase-absent x (y ∷ s) h = ground (arith, erase-absent x s)

pub length-erase :
    (x : ℕ) (s : List ℕ) → IsDistinct s → mem x s ≡ true → suc (length (erase x s)) ≡ length s
unfolding mem erase
length-erase x [] d h = ground arith
length-erase x (y ∷ s) d h = ground (arith, length-erase x s d.1, erase-absent y s)

pub erase_comm : (x y : ℕ) (s : List ℕ) → erase x (erase y s) ≡ erase y (erase x s)
unfolding erase
erase_comm x y [] = refl
erase_comm x y (z ∷ s) = ground (arith, erase_comm x y s)
