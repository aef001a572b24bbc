-- ===== src/BattleSim/Arena.antt =====
-- game/BattleSim.cc: movement keeps players in the arena, if the directions that clients sent are finite.
-- A direction that is infinite or no number makes `mx / len` no number, which `std::clamp` lets through.
use my_game_server.Base.{ℕ, true, false, ◌≤◌, List, [], ◌∷◌, ◌≡◌, arith, All, Bool-cases, inl, inr}
use my_game_server.Base.Map.{Map}
use my_game_server.BattleSim.Defs.{Floats, Player}
use my_game_server.BattleSim.Move.{
  clamp, moved_to, unit_x, unit_y, move_player, move_all, arena, speed,
}

-- What is relied on of `float`, as IEEE 754 has it: which are finite, that a float is a number if it is no
-- greater than itself, how numbers are ordered, and which results are numbers again.
pub record Compares (fl : Floats) : Type 1 where
  pub Finite : fl.Float → Type 0
  pub total :
      (a b : fl.Float) → fl.le a a ≡ true → fl.le b b ≡ true → fl.lt a b ≡ false → fl.le b a ≡ true
  pub finite_number : (a : fl.Float) → Finite a → fl.le a a ≡ true
  pub small : (n : ℕ) → n ≤ 100 → Finite (fl.of_int n)
  pub ordered : fl.le (fl.of_int 0) (fl.of_int 100) ≡ true
  pub between :
      (a : fl.Float) → fl.le (fl.of_int 0) a ≡ true → fl.le a (fl.of_int 100) ≡ true → Finite a
  pub div_down : (a b : fl.Float) → Finite a → fl.lt (fl.of_int 1) b ≡ true → Finite (fl.div a b)
  pub mul_number : (a b : fl.Float) → Finite a → Finite b → fl.le (fl.mul a b) (fl.mul a b) ≡ true
  pub mul_positive :
      (a b : fl.Float)
      → fl.le a a ≡ true
      → Finite b
      → fl.lt (fl.of_int 0) b ≡ true
      → fl.le (fl.mul a b) (fl.mul a b) ≡ true
  pub add_number :
      (a b : fl.Float) → Finite a → fl.le b b ≡ true → fl.le (fl.add a b) (fl.add a b) ≡ true

module _ (fl : Floats) (laws : Compares fl) where
  open fl use {Float, of_int, add, mul, lt, le}

  -- A number from 0 to 100.
  abbrev pub InRange : Float → Type 0
  InRange a = (le (of_int 0) a ≡ true) × (le a (of_int 100) ≡ true)

  abbrev pub InArena : ℕ × Player fl → Type 0
  InArena e = InRange e.1.x × InRange e.1.y

  -- In the arena, with a finite direction.
  abbrev pub IsSteered : ℕ × Player fl → Type 0
  IsSteered e = InArena e × (laws.Finite e.1.input.move_x × laws.Finite e.1.input.move_y)

  of_int_number : (n : ℕ) → n ≤ 100 → le (of_int n) (of_int n) ≡ true
  of_int_number n h = laws.finite_number (of_int n) (laws.small n h)

  clamp-InRange : (v : Float) → le v v ≡ true → InRange (clamp fl v (of_int 0) (arena fl))
  unfolding clamp
  clamp-InRange v h = elim (Bool-cases (lt v (of_int 0))) [
    | inl low ↦ rw low (of_int_number 0 (omega arith), laws.ordered)
    | inr not_low ↦ elim (Bool-cases (lt (of_int 100) v)) [
      | inl high ↦ rw (not_low, high) (laws.ordered, of_int_number 100 (omega arith))
      | inr not_high ↦
          rw (not_low, not_high)
            (
              laws.total v (of_int 0) h (of_int_number 0 (omega arith)) not_low,
              laws.total (of_int 100) v (of_int_number 100 (omega arith)) h not_high,
            )
    ]
  ]

  unit_x-Finite : (x y : Float) → laws.Finite x → laws.Finite (unit_x fl x y)
  unfolding unit_x
  unit_x-Finite x y h = elim (Bool-cases (lt (of_int 1) (fl.sqrt (add (mul x x) (mul y y))))) [
    | inl long ↦ rw long (laws.div_down x _ h long)
    | inr short ↦ rw short h
  ]

  unit_y-Finite : (x y : Float) → laws.Finite y → laws.Finite (unit_y fl x y)
  unfolding unit_y
  unit_y-Finite x y h = elim (Bool-cases (lt (of_int 1) (fl.sqrt (add (mul x x) (mul y y))))) [
    | inl long ↦ rw long (laws.div_down y _ h long)
    | inr short ↦ rw short h
  ]

  module _ (dt : Float) (finite_dt : laws.Finite dt) (positive_dt : lt (of_int 0) dt ≡ true) where
    moved_to-InRange : (at m : Float) → InRange at → laws.Finite m → InRange (moved_to fl dt at m)
    unfolding moved_to
    moved_to-InRange at m (lo, hi) h = clamp-InRange (add at (mul (mul m (speed fl)) dt)) (
        laws.add_number at (mul (mul m (speed fl)) dt) (laws.between at lo hi) (
          laws.mul_positive (mul m (speed fl)) dt
            (laws.mul_number m (speed fl) h (laws.small 20 (omega arith))) finite_dt positive_dt))

    move_player-InArena :
        (id : ℕ) (p : Player fl) → IsSteered (id, p) → InArena (id, (move_player fl dt p).0)
    unfolding move_player
    move_player-InArena id p ((x, y), (mx, my)) = ground (
      arith,
      x,
      y,
      moved_to-InRange p.x (unit_x fl p.input.move_x p.input.move_y) x
          (unit_x-Finite p.input.move_x p.input.move_y mx),
      moved_to-InRange p.y (unit_y fl p.input.move_x p.input.move_y) y
          (unit_y-Finite p.input.move_x p.input.move_y my),
    )

    -- With floats that compare and compute as IEEE 754 has it, in a step of positive and finite length:
    -- players who are in the arena, each coordinate a number from 0 to 100, are in it after they moved,
    -- whatever finite directions the clients sent, however long.
    pub move_all-InArena :
        (m : Map (Player fl)) (changed : List ℕ)
        → All IsSteered m
        → All InArena (move_all fl dt m changed).0
    unfolding move_all
    move_all-InArena [] changed h = tt
    move_all-InArena ((id, p) ∷ m) changed h =
        (move_player-InArena id p h.0, move_all-InArena m _ h.1)
