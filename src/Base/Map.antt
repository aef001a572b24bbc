-- ===== src/Base/Map.antt =====
-- `std::unordered_map<uint64_t, V>`: pairs in the order in which the map is iterated. The laws that
-- clients use hold whatever that order is.
use Prim.Native.Nat.{ℕ}
use mathlib.Core.Path.{◌≡◌, refl}
use mathlib.Core.List.{List, [], ◌∷◌}
use mathlib.Core.Bool.{Bool, true, false}
use mathlib.Core.Option.{Option, none, some}
use native.Mathlib.Omega.{arith}
use my_game_server.Base.Tests.{◌==◌, if◌then◌else◌}

abbrev pub Map {ℓ} : Type ℓ → Type ℓ
Map V = List (ℕ × V)

module _ {ℓ} {V : Type ℓ} where
  -- `find(k)`; `none` for `end()`.
  unfoldable pub lookup : ℕ → Map V → Option V
  lookup id [] = none
  lookup id ((j, v) ∷ rest) = if j == id then some v else lookup id rest

  -- `m[k] = v`.
  unfoldable pub insert : ℕ → V → Map V → Map V
  insert id new [] = (id, new) ∷ []
  insert id new ((j, old) ∷ rest) =
      if j == id then (id, new) ∷ rest else (j, old) ∷ insert id new rest

  -- `erase(k)`. Every pair with the key goes, so that the law needs no assumption.
  unfoldable pub erase : ℕ → Map V → Map V
  erase k [] = []
  erase k ((j, w) ∷ m) = if j == k then erase k m else (j, w) ∷ erase k m

  -- The keys, in iteration order.
  unfoldable pub keys : Map V → List ℕ
  keys [] = []
  keys ((j, w) ∷ m) = j ∷ keys m

  pub lookup-insert :
      (k j : ℕ) (v : V) (m : Map V)
      → lookup j (insert k v m) ≡ (if k == j then some v else lookup j m)
  unfolding lookup insert
  lookup-insert id j new [] = refl
  lookup-insert id j new ((i, old) ∷ rest) = ground (arith, lookup-insert id j new rest)

  pub lookup-erase :
      (k j : ℕ) (m : Map V) → lookup j (erase k m) ≡ (if k == j then none else lookup j m)
  unfolding lookup erase
  lookup-erase k j [] = ground arith
  lookup-erase k j ((i, w) ∷ m) = ground (arith, lookup-erase k j m)

  abbrev pub is_some : Option V → Bool
  is_some none = false
  is_some (some v) = true

  -- `count(k)`.
  unfoldable pub has : ℕ → Map V → Bool
  has k m = is_some (lookup k m)

  pub has-insert :
      (k j : ℕ) (v : V) (m : Map V) → has j (insert k v m) ≡ (if k == j then true else has j m)
  unfolding has
  has-insert k j v m = rw (lookup-insert k j v m) (ground arith)

  pub has-erase : (k j : ℕ) (m : Map V) → has j (erase k m) ≡ (if k == j then false else has j m)
  unfolding has
  has-erase k j m = rw (lookup-erase k j m) (ground arith)

  pub has_of_lookup : (k : ℕ) (v : V) (m : Map V) → lookup k m ≡ some v → has k m ≡ true
  unfolding has
  has_of_lookup k v m e = rw e
