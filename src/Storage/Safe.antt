-- ===== src/Storage/Safe.antt =====
-- game/GameServer.cc and storage/: the storage thread uses no client that is not connected, and answers
-- every request for the leaderboard.
use my_game_server.Base.{
  ℕ, Bool, true, false, List, [], ◌∷◌, ◌++◌, Option, none, some, ◌≡◌, refl, sym, ap, ◌∙◌, subst,
  Bool-cases, inl, inr, if_true, if_false, append_assoc, append-nil,
}
use my_game_server.Storage.Services.{
  Text, c_str, MySqlLib, RedisLib, Printing, Reply, Gives, Gives-bind,
}
use my_game_server.Storage.MySql
use my_game_server.Storage.Redis
use my_game_server.Storage.Results.{record_result_lem}
use my_game_server.Storage.Tasks.{
  Task, online, offline, result, leaderboard, Options, Storage, fresh, with_mysql, with_ping,
  with_redis, connect_all, work, degraded, run_task, run_tasks, storage_thread,
}

differ : false ≡ true → ⊥
differ e = cc

-- The connections that asked for the leaderboard.
abbrev pub asked : List Task → List ℕ
asked [] = []
asked (online account ∷ ts) = asked ts
asked (offline account ∷ ts) = asked ts
asked (result winner loser ∷ ts) = asked ts
asked (leaderboard conn n ∷ ts) = conn ∷ asked ts

module _ (my : MySqlLib) (re : RedisLib) (pr : Printing) (o : Options) where
  abbrev pub answered : List (ℕ × List (Text × pr.Double)) → List ℕ
  answered [] = []
  answered ((conn, entries) ∷ rs) = conn ∷ answered rs

  answered-append :
      (xs ys : List (ℕ × List (Text × pr.Double)))
      → answered (xs ++ ys) ≡ answered xs ++ answered ys
  answered-append [] ys = refl
  answered-append ((conn, entries) ∷ xs) ys = ap (◌∷◌ conn) (answered-append xs ys)

  -- Ready is only who is connected to both.
  pub record IsSafe (s : Storage my re pr o) : Type 0 where
    pub has_redis : s.ready ≡ true → s.redis.ctx ≡ true
    pub has_mysql : s.ready ≡ true → s.mysql.conn ≡ true

  -- Clients that are connected stay so.
  abbrev Linked : (A : Type 0) → A × Redis.Client re pr → Type 0
  Linked A r = r.1.ctx ≡ true

  abbrev Kept : Bool × MySql.Store my pr → Type 0
  Kept r = r.1.conn ≡ true

  command-Linked :
      (words : List Text) (c : Redis.Client re pr)
      → c.ctx ≡ true
      → Gives (Linked (Option Reply)) (Redis.redis_command re pr words c)
  unfolding Redis.redis_command
  command-Linked words c e = subst (Gives (Linked (Option Reply))) (sym (if_true _ _ e)) e

  ask-Linked :
      (f : Option Reply → Bool) (words : List Text) (c : Redis.Client re pr)
      → c.ctx ≡ true
      → Gives (Linked Bool) (Redis.ask re pr f words c)
  ask-Linked f words c e =
      Gives-bind (Linked (Option Reply)) (Linked Bool) (Redis.redis_command re pr words c) _
        (command-Linked words c e) (λ r h. h)

  exec-Kept : (sql : Text) (s : MySql.Store my pr) → s.conn ≡ true → Kept (MySql.exec my pr sql s)
  unfolding MySql.exec
  exec-Kept sql s e = ap (λ (r : Bool × MySql.Store my pr). r.1.conn) (if_true _ _ e) ∙ e

  record_result-Kept :
      (winner loser : Text) (s : MySql.Store my pr)
      → s.conn ≡ true
      → Gives Kept (MySql.record_result my pr winner loser s)
  record_result-Kept winner loser s e =
      subst (Gives Kept) (sym (record_result_lem my pr winner loser s.conn s.server e)) refl

  ztop_n-Linked :
      (key : Text) (n : ℕ) (c : Redis.Client re pr)
      → c.ctx ≡ true
      → Gives (Linked (List (Text × pr.Double))) (Redis.ztop_n re pr key n c)
  unfolding Redis.ztop_n
  ztop_n-Linked key n c e =
      Gives-bind (Linked (Option Reply)) (Linked (List (Text × pr.Double)))
        (Redis.redis_command re pr _ c) _ (command-Linked _ c e) (λ r h. h)

  abbrev Fine : Storage my re pr o → Type 0
  Fine s = IsSafe s × (s.sent ≡ [])

  unready : {s : Storage my re pr o} → s.ready ≡ false → IsSafe s
  unready e = record {
    has_redis = λ u. absurd (let f = sym e ∙ u in differ f);
    has_mysql = λ u. absurd (let f = sym e ∙ u in differ f);
  }

  with_mysql-Fine :
      (ok : Bool) (s : Storage my re pr o)
      → s.ready ≡ false
      → s.sent ≡ []
      → s.redis.ctx ≡ true
      → s.mysql.conn ≡ ok
      → Gives Fine (with_mysql my re pr o ok s)
  unfolding MySql.ensure_schema
  with_mysql-Fine false s n e c m = (unready n, e)
  with_mysql-Fine true s n e c m =
      (record { has_redis = λ u. c; has_mysql = λ u. exec-Kept MySql.schema_sql s.mysql m }, e)

  with_ping-Fine :
      (ok : Bool) (s : Storage my re pr o)
      → s.ready ≡ false
      → s.sent ≡ []
      → s.redis.ctx ≡ true
      → Gives Fine (with_ping my re pr o ok s)
  unfolding MySql.connect
  with_ping-Fine false s n e c = (unready n, e)
  with_ping-Fine true s n e c = with_mysql-Fine _ _ n e c refl

  ping-Linked : (c : Redis.Client re pr) → c.ctx ≡ true → Gives (Linked Bool) (Redis.ping re pr c)
  unfolding Redis.ping
  ping-Linked c e = subst (Gives (Linked Bool)) (sym (if_true _ _ e)) (ask-Linked _ _ c e)

  with_redis-Fine :
      (ok : Bool) (s : Storage my re pr o)
      → s.ready ≡ false
      → s.sent ≡ []
      → (ok ≡ true → s.redis.ctx ≡ true)
      → Gives Fine (with_redis my re pr o ok s)
  with_redis-Fine false s n e c = (unready n, e)
  with_redis-Fine true s n e c =
      Gives-bind (Linked Bool) Fine (Redis.ping re pr s.redis) _ (ping-Linked s.redis (c refl))
        (λ r h. with_ping-Fine r.0 (record s { redis = r.1 }) n e h)

  fine_context : (r : Option Bool) → Redis.is_fine re pr r ≡ true → Redis.is_context re pr r ≡ true
  fine_context none e = e
  fine_context (some ok) e = refl

  connect_all-Fine :
      (rs : re.Server) (ms : my.Server)
      → Gives Fine (connect_all my re pr o (fresh my re pr o rs ms))
  unfolding connect_all fresh Redis.connect
  connect_all-Fine rs ms =
      with_redis-Fine _ _ refl refl
        (fine_context (re.connect (c_str o.redis_host) o.redis_port rs).0)

  -- What a task leaves behind.
  abbrev Done : Task → Storage my re pr o → Storage my re pr o → Type 0
  Done t s s' = IsSafe s' × (answered s'.sent ≡ answered s.sent ++ asked (t ∷ []))

  safe : {s : Storage my re pr o} → s.redis.ctx ≡ true → s.mysql.conn ≡ true → IsSafe s
  safe h g = record { has_redis = λ u. h; has_mysql = λ u. g }

  work-Done :
      (t : Task) (s : Storage my re pr o)
      → s.redis.ctx ≡ true
      → s.mysql.conn ≡ true
      → Gives (Done t s) (work my re pr o t s)
  unfolding work Redis.set Redis.del Redis.zincrby
  work-Done (online account) s e f =
      Gives-bind (Linked Bool) (Done (online account) s) _ _ (ask-Linked _ _ s.redis e)
        (λ r h. (safe h f, sym (append-nil _)))
  work-Done (offline account) s e f =
      Gives-bind (Linked Bool) (Done (offline account) s) _ _ (ask-Linked _ _ s.redis e)
        (λ r h. (safe h f, sym (append-nil _)))
  work-Done (result winner loser) s e f =
      Gives-bind Kept (Done (result winner loser) s) _ _ (record_result-Kept winner loser s.mysql f)
        (λ m g.
          Gives-bind (Linked Bool) (Done (result winner loser) s) _ _ (ask-Linked _ _ s.redis e)
            (λ r h. (safe h g, sym (append-nil _))))
  work-Done (leaderboard conn n) s e f =
      Gives-bind (Linked (List (Text × pr.Double))) (Done (leaderboard conn n) s) _ _
        (ztop_n-Linked o.leaderboard_key n s.redis e) (λ r h. (safe h f, answered-append s.sent _))

  run_task-Done :
      (t : Task) (s : Storage my re pr o) → IsSafe s → Gives (Done t s) (run_task my re pr o t s)
  unfolding run_task
  run_task-Done t s h = elim (Bool-cases s.ready) [
    | inl e ↦
        subst (Gives (Done t s)) (sym (if_true _ _ e))
          (work-Done t s (h.has_redis e) (h.has_mysql e))
    | inr e ↦ subst (Gives (Done t s)) (sym (if_false _ _ e)) (rests t e)
  ]
    where
      rests : (t : Task) → s.ready ≡ false → Done t s (degraded my re pr o t s)
      rests (online account) e = (h, sym (append-nil _))
      rests (offline account) e = (h, sym (append-nil _))
      rests (result winner loser) e = (h, sym (append-nil _))
      rests (leaderboard conn n) e = (unready e, answered-append s.sent _)

  asked-cons : (t : Task) (ts : List Task) → asked (t ∷ ts) ≡ asked (t ∷ []) ++ asked ts
  asked-cons (online account) ts = refl
  asked-cons (offline account) ts = refl
  asked-cons (result winner loser) ts = refl
  asked-cons (leaderboard conn n) ts = refl

  run_tasks-Done :
      (ts : List Task) (s : Storage my re pr o)
      → IsSafe s
      → Gives
          (λ s'. IsSafe s' × (answered s'.sent ≡ answered s.sent ++ asked ts))
          (run_tasks my re pr o ts s)
  unfolding run_tasks
  run_tasks-Done [] s h = (h, sym (append-nil _))
  run_tasks-Done (t ∷ ts) s h =
      Gives-bind (Done t s)
        (λ s'. IsSafe s' × (answered s'.sent ≡ answered s.sent ++ asked (t ∷ ts)))
        (run_task my re pr o t s) _ (run_task-Done t s h)
        (λ s' d.
          subst
            (λ l. Gives (λ s''. IsSafe s'' × (answered s''.sent ≡ l)) (run_tasks my re pr o ts s'))
            (ap (λ l. l ++ asked ts) d.1
              ∙ append_assoc (answered s.sent) (asked (t ∷ [])) (asked ts)
              ∙ ap (λ l. answered s.sent ++ l) (sym (asked-cons t ts)))
            (run_tasks-Done ts s' d.0))

  -- The storage thread, from its start on and over any tasks, whatever the client libraries answer, never
  -- uses a client that is not connected, and sends exactly one response for each request for the
  -- leaderboard, to the connection that asked, in the order of the requests, also if a service is down.
  pub storage_thread-answers :
      (ts : List Task) (rs : re.Server) (ms : my.Server)
      → (s : Storage my re pr o) × (storage_thread my re pr o ts rs ms ≡ some s)
        × (answered s.sent ≡ asked ts)
  unfolding storage_thread
  storage_thread-answers ts rs ms = value _ (
      Gives-bind Fine (λ s. answered s.sent ≡ asked ts)
        (connect_all my re pr o (fresh my re pr o rs ms)) _ (connect_all-Fine rs ms)
        (λ s f.
          subst (λ l. Gives (λ s'. answered s'.sent ≡ l) (run_tasks my re pr o ts s))
            (ap (λ l. answered l ++ asked ts) f.1) (weaken _ _ (run_tasks-Done ts s f.0))))
    where
      value :
          (r : Option (Storage my re pr o))
          → Gives (λ s. answered s.sent ≡ asked ts) r
          → (s : Storage my re pr o) × (r ≡ some s) × (answered s.sent ≡ asked ts)
      value none h = absurd h
      value (some s) h = (s, refl, h)

      weaken :
          (l : List ℕ) (r : Option (Storage my re pr o))
          → Gives (λ s. IsSafe s × (answered s.sent ≡ l)) r
          → Gives (λ s. answered s.sent ≡ l) r
      weaken l none h = h
      weaken l (some s) h = h.1
