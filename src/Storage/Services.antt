-- ===== src/Storage/Services.antt =====
-- The client libraries of storage/MySqlStore.cc and storage/RedisClient.cc, libmysqlclient and hiredis,
-- with the server behind each.
use Prim.Native.Char.{code}
use Prim.Native.String.{String}
use my_game_server.Base.{ℕ, ◌==◌, if◌then◌else◌, Bool, List, [], ◌∷◌, Option, none, some}

abbrev pub Text : Type 0
Text = List ℕ

abbrev pub codes : String → Text
codes String.[] = []
codes (String.◌∷◌ c s) = code c ∷ codes s

-- `std::string::c_str()`, as a reader that stops at the first NUL takes it.
unfoldable pub c_str : Text → Text
c_str [] = []
c_str (x ∷ xs) = let rest = c_str xs in if x == 0 then [] else x ∷ rest

-- `none` is the dereference of a null client.
infixl 5 ◌>>=◌
abbrev pub ◌>>=◌ {ℓ κ} : {A : Type ℓ} {B : Type κ} → Option A → (A → Option B) → Option B
none >>= f = none
some a >>= f = f a

-- `real_connect` says whether `mysql_real_connect` returned a connection, `query` whether `mysql_query`
-- returned 0, `rows` what `mysql_store_result` and `mysql_fetch_row` give after it.
pub record MySqlLib : Type 1 where
  pub Server : Type 0
  pub real_connect : Text → Text → Text → Text → Server → Bool × Server
  pub query : Text → Server → Bool × Server
  pub escape : Text → Text
  pub rows : Server → Option (List (Text × Text))

-- The kinds of `redisReply`.
pub data Reply : Type 0 where
  status error nil : Reply
  integer : ℕ → Reply
  array : List Text → Reply

-- `connect` gives none for a null context and else whether its `err` is 0; `command` gives none for a
-- null reply. A command is the list of its words.
pub record RedisLib : Type 1 where
  pub Server : Type 0
  pub connect : Text → ℕ → Server → Option Bool × Server
  pub command : List Text → Server → Option Reply × Server

-- Numbers to and from texts, as `printf` and the `ato` functions do.
pub record Printing : Type 1 where
  pub Double : Type 0
  pub one : Double
  pub print_double : Double → Text
  pub print_int : ℕ → Text
  pub atof : Text → Double
  pub atoi : Text → ℕ

-- The result is there, and it is as said.
abbrev pub Gives : {A : Type 0} → (A → Type 0) → Option A → Type 0
Gives P none = ⊥
Gives P (some a) = P a

pub Gives-bind :
    {A B : Type 0} (P : A → Type 0) (Q : B → Type 0) (o : Option A) (f : A → Option B)
    → Gives P o
    → ((a : A) → P a → Gives Q (f a))
    → Gives Q (o >>= f)
Gives-bind P Q none f h k = absurd h
Gives-bind P Q (some a) f h k = k a h
