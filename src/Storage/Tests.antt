-- ===== src/Storage/Tests.antt =====
-- storage/ and the storage tasks of game/GameServer.cc: services in memory.
use my_game_server.Base.{ℕ, ◌+◌, true, List, [], ◌∷◌, none, some, ◌≡◌, get_or}
use my_game_server.Storage.Services.{
  Text, codes, MySqlLib, RedisLib, Printing, Reply, status, integer, array,
}
use my_game_server.Storage.Safe.{answered, storage_thread-answers}
use my_game_server.Storage.Tasks.{
  Task, online, result, leaderboard, Options, Storage, storage_thread,
}

-- It counts the statements.
abbrev table : MySqlLib
table = record {
  Server = ℕ;
  real_connect = λ host user pass db s. (true, s);
  query = λ sql s. (true, s + 1);
  escape = λ t. t;
  rows = λ s. none;
}

-- The commands are told apart by the number of their words.
abbrev ranks_reply : List Text → Reply
ranks_reply (cmd ∷ (key ∷ [])) = integer 1
ranks_reply (cmd ∷ (key ∷ (from ∷ (to ∷ (scores ∷ []))))) = array ((b'a' ∷ []) ∷ ((b'3' ∷ []) ∷ []))
ranks_reply _ = status

abbrev ranks : RedisLib
ranks = record {
  Server = ℕ;
  connect = λ host port s. (some true, s);
  command = λ words s. (some (ranks_reply words), s + 1);
}

abbrev plain : Printing
plain = record {
  Double = ℕ;
  one = 1;
  print_double = λ d. d ∷ [];
  print_int = λ n. n ∷ [];
  atof = λ t. get_or t 0 0;
  atoi = λ t. get_or t 0 0;
}

abbrev options : Options
options = record {
  redis_host = codes "127.0.0.1";
  redis_port = 6379;
  mysql_host = codes "127.0.0.1";
  mysql_user = codes "game";
  mysql_pass = codes "game";
  mysql_db = codes "game";
  leaderboard_key = codes "leaderboard";
}

-- Two battles, the second of an account with a quote in its name.
abbrev jobs : List Task
jobs =
    online (codes "ann")
    ∷ (result (codes "ann") (codes "bob")
        ∷ (leaderboard 7 10 ∷ (result (codes "o'neil") (codes "ann") ∷ (leaderboard 8 3 ∷ []))))

storage_thread-answers_example :
    (s : Storage table ranks plain options) × (storage_thread table ranks plain options jobs 0 0
      ≡ some s)
    × (answered table ranks plain options s.sent ≡ 7 ∷ (8 ∷ []))
storage_thread-answers_example = storage_thread-answers table ranks plain options jobs 0 0
