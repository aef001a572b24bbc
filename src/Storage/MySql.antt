-- ===== src/Storage/MySql.antt =====
-- storage/MySqlStore.h and storage/MySqlStore.cc: the store of results.
use my_game_server.Base.{
  ℕ, if◌then◌else◌, Bool, false, ◌&&◌, List, [], ◌∷◌, ◌++◌, Option, none, some,
}
use my_game_server.Storage.Services.{Text, codes, c_str, ◌>>=◌, MySqlLib, Printing}

-- What the statements say in front of an account and behind it.
abbrev pub win_sql : Text → Text
win_sql account =
    codes "INSERT INTO players(account, wins) VALUES('"
    ++ (account ++ codes "', 1) ON DUPLICATE KEY UPDATE wins = wins + 1")

abbrev pub loss_sql : Text → Text
loss_sql account =
    codes "INSERT INTO players(account, losses) VALUES('"
    ++ (account ++ codes "', 1) ON DUPLICATE KEY UPDATE losses = losses + 1")

abbrev pub select_sql : Text → Text
select_sql account =
    codes "SELECT wins, losses FROM players WHERE account='" ++ (account ++ codes "'")

abbrev pub delete_sql : Text → Text
delete_sql account = codes "DELETE FROM players WHERE account='" ++ (account ++ codes "'")

abbrev pub schema_sql : Text
schema_sql =
    codes "CREATE TABLE IF NOT EXISTS players (  account VARCHAR(64) PRIMARY KEY,"
    ++ (codes "  wins INT NOT NULL DEFAULT 0,  losses INT NOT NULL DEFAULT 0,"
        ++ codes
            "  updated_at TIMESTAMP DEFAULT CURRENT_TIMESTAMP     ON UPDATE CURRENT_TIMESTAMP)")

module _ (my : MySqlLib) (pr : Printing) where
  open my use {Server, real_connect, query, rows}

  -- `conn` is whether `conn_` is set.
  pub record Store : Type 0 where
    pub conn : Bool
    pub server : Server

  unfoldable pub connect : Text → Text → Text → Text → Store → Bool × Store
  connect host user pass db s =
      let (ok, server) = real_connect (c_str host) (c_str user) (c_str pass) (c_str db) s.server in
      (ok, record { conn = ok; server = server })

  unfoldable pub exec : Text → Store → Bool × Store
  exec sql s =
      let (ok, server) = query (c_str sql) s.server in
      if s.conn then (ok, record s { server = server }) else (false, s)

  unfoldable pub ensure_schema : Store → Bool × Store
  unfolding exec
  ensure_schema s = exec schema_sql s

  -- `mysql_real_escape_string` needs the connection.
  unfoldable pub escape : Text → Store → Option Text
  escape account s = if s.conn then some (my.escape account) else none

  unfoldable pub record_result : Text → Text → Store → Option (Bool × Store)
  unfolding exec escape
  record_result winner loser s = do
    winner' ← escape winner s
    let first = exec (win_sql winner') s
    loser' ← escape loser first.1
    let second = exec (loss_sql loser') first.1
    some (second.0 && first.0, second.1)

  abbrev pub first_row : List (Text × Text) → Option (ℕ × ℕ)
  first_row [] = none
  first_row ((wins, losses) ∷ rest) = some (pr.atoi wins, pr.atoi losses)

  abbrev pub read_rows : Option (List (Text × Text)) → Option (ℕ × ℕ)
  read_rows none = none
  read_rows (some rs) = first_row rs

  -- The inner option is what the function returns.
  unfoldable pub get_record : Text → Store → Option (Option (ℕ × ℕ) × Store)
  unfolding exec escape
  get_record account s = do
    account' ← escape account s
    let r = exec (select_sql account') s
    some ((if r.0 then read_rows (rows r.1.server) else none), r.1)

  unfoldable pub remove_account : Text → Store → Option (Bool × Store)
  unfolding exec escape
  remove_account account s = do account' ← escape account s; some (exec (delete_sql account') s)
