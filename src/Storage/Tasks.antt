-- ===== src/Storage/Tasks.antt =====
-- game/GameServer.cc: what the storage thread runs. The first task connects both clients; `storageReady_`
-- says whether that went well.
use my_game_server.Base.{ℕ, if◌then◌else◌, Bool, true, false, List, [], ◌∷◌, ◌++◌, Option, some}
use my_game_server.Storage.Services.{Text, codes, ◌>>=◌, MySqlLib, RedisLib, Printing}
use my_game_server.Storage.MySql
use my_game_server.Storage.Redis

-- The closures of `onLogin` and `onReconnect`, `onDisconnect`, `onRoomEnd` and `onLeaderboard`, with what
-- they capture; a connection is its number.
pub data Task : Type 0 where
  online offline : Text → Task
  result : Text → Text → Task
  leaderboard : ℕ → ℕ → Task

-- `StorageOptions`.
pub record Options : Type 0 where
  pub redis_host : Text
  pub redis_port : ℕ
  pub mysql_host : Text
  pub mysql_user : Text
  pub mysql_pass : Text
  pub mysql_db : Text
  pub leaderboard_key : Text

module _ (my : MySqlLib) (re : RedisLib) (pr : Printing) (o : Options) where
  -- `sent` is the responses to `LeaderboardReq`, with the connection.
  pub record Storage : Type 0 where
    pub ready : Bool
    pub redis : Redis.Client re pr
    pub mysql : MySql.Store my pr
    pub sent : List (ℕ × List (Text × pr.Double))

  unfoldable pub fresh : re.Server → my.Server → Storage
  fresh rs ms = record {
    ready = false;
    redis = record { ctx = false; server = rs };
    mysql = record { conn = false; server = ms };
    sent = [];
  }

  -- The rest of the condition, each part once the one before held.
  abbrev pub with_mysql : Bool → Storage → Option Storage
  with_mysql false s = some s
  with_mysql true s =
      let (ok, store) = MySql.ensure_schema my pr s.mysql in
      some (record s { ready = ok; mysql = store })

  abbrev pub with_ping : Bool → Storage → Option Storage
  with_ping false s = some s
  with_ping true s =
      let (ok, store) =
        MySql.connect my pr o.mysql_host o.mysql_user o.mysql_pass o.mysql_db s.mysql in
      with_mysql ok (record s { mysql = store })

  abbrev pub with_redis : Bool → Storage → Option Storage
  with_redis false s = some s
  with_redis true s = do r ← Redis.ping re pr s.redis; with_ping r.0 (record s { redis = r.1 })

  -- The first task, on clients that are not connected.
  unfoldable pub connect_all : Storage → Option Storage
  connect_all s =
      let (ok, client) = Redis.connect re pr o.redis_host o.redis_port s.redis in
      with_redis ok (record s { redis = client; ready = false })

  abbrev pub online_key : Text → Text
  online_key account = codes "online:" ++ account

  abbrev pub reply : ℕ → List (Text × pr.Double) → Storage → Storage
  reply conn entries s = record s { sent = s.sent ++ ((conn, entries) ∷ []) }

  -- What a task does where the storage is ready.
  unfoldable pub work : Task → Storage → Option Storage
  work (online account) s = do
    r ← Redis.set re pr (online_key account) (codes "1") s.redis
    some (record s { redis = r.1 })
  work (offline account) s = do
    r ← Redis.del re pr (online_key account) s.redis
    some (record s { redis = r.1 })
  work (result winner loser) s = do
    m ← MySql.record_result my pr winner loser s.mysql
    r ← Redis.zincrby re pr o.leaderboard_key winner pr.one s.redis
    some (record s { mysql = m.1; redis = r.1 })
  work (leaderboard conn n) s = do
    r ← Redis.ztop_n re pr o.leaderboard_key n s.redis
    some (reply conn r.0 (record s { redis = r.1 }))

  -- And where it is not: a leaderboard is answered with no entries.
  abbrev pub degraded : Task → Storage → Storage
  degraded (online account) s = s
  degraded (offline account) s = s
  degraded (result winner loser) s = s
  degraded (leaderboard conn n) s = reply conn [] s

  unfoldable pub run_task : Task → Storage → Option Storage
  unfolding work
  run_task t s = if s.ready then work t s else some (degraded t s)

  unfoldable pub run_tasks : List Task → Storage → Option Storage
  run_tasks [] s = some s
  run_tasks (t ∷ ts) s = run_task t s >>= run_tasks ts

  -- The storage thread from its start on.
  unfoldable pub storage_thread : List Task → re.Server → my.Server → Option Storage
  unfolding fresh connect_all run_tasks
  storage_thread ts rs ms = connect_all (fresh rs ms) >>= run_tasks ts
