-- ===== src/Storage/Results.antt =====
-- storage/MySqlStore.cc: `recordResult` on a store that is connected.
use my_game_server.Base.{Bool, true, false, ◌&&◌, some, ◌≡◌, refl}
use my_game_server.Storage.Services.{Text, c_str, MySqlLib, Printing}
use my_game_server.Storage.MySql.{win_sql, loss_sql, record_result}

module _ (my : MySqlLib) (pr : Printing) where
  -- Both statements are run, the second also if the first failed.
  abbrev pub both : Text → Text → my.Server → (Bool × Bool) × my.Server
  both winner loser server =
      let (ok, server1) = my.query (c_str (win_sql (my.escape winner))) server in
      let (ok', server2) = my.query (c_str (loss_sql (my.escape loser))) server1 in
      ((ok', ok), server2)

  pub record_result_lem :
      (winner loser : Text) (conn : Bool) (server : my.Server)
      → conn ≡ true
      → record_result my pr winner loser (record { conn = conn; server = server })
        ≡ some (
          (both winner loser server).0.0 && (both winner loser server).0.1,
          record { conn = true; server = (both winner loser server).1 },
        )
  unfolding record_result
  record_result_lem winner loser true server e = refl
  record_result_lem winner loser false server e = absurd (cc)
