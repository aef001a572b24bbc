-- ===== src/BattleSim/Whole.antt =====
-- Whole numbers in place of floats, so that concrete simulations run.
use my_game_server.Base.{ℕ, ◌+◌, ◌-◌, ◌*◌, ◌/◌, ltb, leb, ◌==◌}
use my_game_server.BattleSim.Defs.{Floats}

abbrev pub whole : Floats
whole = record {
  Float = ℕ;
  of_int = λ n. n;
  minus_one = 0;
  half = 0;
  tiny = 0;
  infinity = 1000000;
  add = λ a b. a + b;
  sub = λ a b. a - b;
  mul = λ a b. a * b;
  div = λ a b. a / b;
  sqrt = λ a. a;
  hypot = λ a b. a + b;
  lt = ltb;
  le = leb;
  eq = ◌==◌;
}
