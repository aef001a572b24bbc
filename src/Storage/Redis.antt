-- ===== src/Storage/Redis.antt =====
-- storage/RedisClient.h and storage/RedisClient.cc: the client of the leaderboard and of who is online.
use my_game_server.Base.{
  ℕ, ◌-◌, ◌==◌, if◌then◌else◌, Bool, true, false, List, [], ◌∷◌, Option, none, some,
}
use my_game_server.Storage.Services.{
  Text, codes, c_str, ◌>>=◌, RedisLib, Printing, Reply, status, error, nil, integer, array,
}

module _ (re : RedisLib) (pr : Printing) where
  open re use {Server, command}
  open pr use {Double, print_double, print_int, atof}

  -- `ctx` is whether `ctx_` is set.
  pub record Client : Type 0 where
    pub ctx : Bool
    pub server : Server

  abbrev pub is_context : Option Bool → Bool
  is_context none = false
  is_context (some ok) = true

  abbrev pub is_fine : Option Bool → Bool
  is_fine none = false
  is_fine (some ok) = ok

  unfoldable pub connect : Text → ℕ → Client → Bool × Client
  connect host port c =
      let (r, server) = re.connect (c_str host) port c.server in
      (is_fine r, record { ctx = is_context r; server = server })

  -- `redisCommand` needs the context. A `%s` in its format takes a C string.
  unfoldable pub redis_command : List Text → Client → Option (Option Reply × Client)
  redis_command words c =
      let (r, server) = command words c.server in
      if c.ctx then some (r, record c { server = server }) else none

  abbrev pub is_status : Option Reply → Bool
  is_status (some status) = true
  is_status _ = false

  abbrev pub is_no_error : Option Reply → Bool
  is_no_error none = false
  is_no_error (some status) = true
  is_no_error (some error) = false
  is_no_error (some nil) = true
  is_no_error (some (integer n)) = true
  is_no_error (some (array ts)) = true

  abbrev pub is_integer : Option Reply → Bool
  is_integer (some (integer n)) = true
  is_integer _ = false

  abbrev pub is_one : Option Reply → Bool
  is_one (some (integer n)) = n == 1
  is_one _ = false

  abbrev pub answer : (Option Reply → Bool) → Option Reply × Client → Bool × Client
  answer f (r, c) = (f r, c)

  abbrev pub ask : (Option Reply → Bool) → List Text → Client → Option (Bool × Client)
  ask f words c = redis_command words c >>= (λ r. some (answer f r))

  unfoldable pub ping : Client → Option (Bool × Client)
  unfolding redis_command
  ping c =
      let asked = ask is_status (codes "PING" ∷ []) c in if c.ctx then asked else some (false, c)

  unfoldable pub zincrby : Text → Text → Double → Client → Option (Bool × Client)
  unfolding redis_command
  zincrby key member delta c =
      ask is_no_error (codes "ZINCRBY" ∷ (c_str key ∷ (print_double delta ∷ (c_str member ∷ [])))) c

  -- The loop of `ztopN` over the elements, two at a time.
  unfoldable pub pairs : List Text → List (Text × Double)
  pairs [] = []
  pairs (member ∷ []) = []
  pairs (member ∷ (score ∷ ts)) = (member, atof score) ∷ pairs ts

  abbrev pub ranking : Option Reply → List (Text × Double)
  ranking (some (array ts)) = pairs ts
  ranking _ = []

  -- The last index is `n - 1`; `n` is at least 1 here.
  unfoldable pub ztop_n : Text → ℕ → Client → Option (List (Text × Double) × Client)
  unfolding redis_command pairs
  ztop_n key n c = do
    r ←
        redis_command
          (codes "ZREVRANGE"
            ∷ (c_str key ∷ (codes "0" ∷ (print_int (n - 1) ∷ (codes "WITHSCORES" ∷ [])))))
          c
    some (ranking r.0, r.1)

  unfoldable pub set : Text → Text → Client → Option (Bool × Client)
  unfolding redis_command
  set key val c = ask is_status (codes "SET" ∷ (c_str key ∷ (c_str val ∷ []))) c

  unfoldable pub del : Text → Client → Option (Bool × Client)
  unfolding redis_command
  del key c = ask is_integer (codes "DEL" ∷ (c_str key ∷ [])) c

  unfoldable pub exists : Text → Client → Option (Bool × Client)
  unfolding redis_command
  exists key c = ask is_one (codes "EXISTS" ∷ (c_str key ∷ [])) c
