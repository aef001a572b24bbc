-- ===== src/Bench/Worker/Rtt.antt =====
-- examples/bench_client.cc: the round trips of inputs that the worker measures.
use my_game_server.Base.{
  ℕ, ◌+◌, ◌/◌, ◌%◌, ◌^◌, ◌≤◌, ◌<◌, leb, ◌==◌, if◌then◌else◌, Bool, true, false, ◌&&◌, List, [], ◌∷◌,
  Option, none, some, arith,
}
use my_game_server.Buffer.{Buffer}
use my_game_server.Codec.Stream.{Message}
use my_game_server.Connection.Read.{Ending, drained, peer_closed, broke, read_loop}
use my_game_server.Bench.{new_conn, new_stats, dead, wait_login, Messages, Took, State, send_msg}
use my_game_server.Bench.Cut.{cut_all}
use my_game_server.Bench.Worker.{
  Report, after_cut, after_read, on_readable, read_at, read_and_write, then_write, log_in, on_event,
  send_beat, start_measuring, send_input, drive, Op, elapses, events, drives, or_stay, step, run,
  is_dead, is_connecting, is_silent, is_fighting,
}
use my_game_server.Bench.Worker.Timely.{
  IsTimely, IsTimely-later, send_msg-IsTimely, keep_writing-IsTimely, handle_all-IsTimely,
}

module _ (ms : Messages) (is_battle : Bool) (now : ℕ) (small : now < 2 ^ 64) where
  -- Where a step gives a state.
  abbrev OnSome : Option State → Type 0
  OnSome none = Unit
  OnSome (some s) = IsTimely now s

  after_cut-OnSome :
      (tss : List (List Took)) (o : Option (List Message × Buffer)) (s : State)
      → IsTimely now s
      → OnSome (after_cut ms is_battle tss now o s)
  unfolding after_cut
  after_cut-OnSome tss none s t = tt
  after_cut-OnSome tss (some (fs, r)) (c, st) t =
      handle_all-IsTimely ms is_battle now small tss fs (record c { input = r }, st) t

  after_read-OnSome :
      (tss : List (List Took)) (e : Ending) (s : State)
      → IsTimely now s
      → OnSome (after_read ms is_battle tss now e s)
  unfolding after_read
  after_read-OnSome tss drained (c, st) t = after_cut-OnSome tss (cut_all c.input) (c, st) t
  after_read-OnSome tss peer_closed (c, st) t = t
  after_read-OnSome tss broke (c, st) t = t

  on_readable-OnSome :
      (r : Report) (s : State) → IsTimely now s → OnSome (on_readable ms is_battle r now s)
  unfolding on_readable
  on_readable-OnSome r (c, st) t =
      let (e, b) = read_loop r.readings c.input in
      after_read-OnSome r.sends e (record c { input = b }, st) t

  read_at-OnSome :
      (b : Bool) (r : Report) (s : State) → IsTimely now s → OnSome (read_at ms is_battle b r now s)
  unfolding read_at
  read_at-OnSome true r s t = on_readable-OnSome r s t
  read_at-OnSome false r s t = t

  then_write-OnSome :
      (r : Report) (o : Option State) → OnSome o → OnSome (then_write ms is_battle r o)
  unfolding then_write
  then_write-OnSome r none t = tt
  then_write-OnSome r (some s) t = keep_writing-IsTimely now r s t

  read_and_write-OnSome :
      (r : Report) (s : State) → IsTimely now s → OnSome (read_and_write ms is_battle r now s)
  read_and_write-OnSome r s t = then_write-OnSome r _ (read_at-OnSome r.can_read r s t)

  log_in-IsTimely :
      (tid i stagger : ℕ) (r : Report) (s : State)
      → IsTimely now s
      → IsTimely now (log_in ms is_battle tid i stagger r now s)
  unfolding log_in
  log_in-IsTimely tid i stagger r (c, st) t =
      send_msg-IsTimely now r.login_sends 3 (ms.login_req tid i)
        (record c { stage = wait_login }, record st { established = st.established + 1 }) t

  on_event-OnSome :
      (tid i stagger : ℕ) (r : Report) (s : State)
      → IsTimely now s
      → OnSome (on_event ms is_battle tid i stagger r now s)
  unfolding on_event
  on_event-OnSome tid i stagger r (c, st) t =
      either (is_dead c.stage) (is_connecting c.stage && r.can_write) r.err
    where
      either :
          (b b' b'' : Bool)
          → OnSome (
              if b
              then some (c, st)
              else if b'
              then (if b''
                  then some (record c { stage = dead }, record st { failed = st.failed + 1 })
                  else read_and_write ms is_battle r now
                      (log_in ms is_battle tid i stagger r now (c, st)))
              else read_and_write ms is_battle r now (c, st))
      either true b' b'' = t
      either false true true = t
      either false true false =
          read_and_write-OnSome r _ (log_in-IsTimely tid i stagger r (c, st) t)
      either false false b'' = read_and_write-OnSome r (c, st) t

  send_beat-IsTimely :
      (ts : List Took) (s : State) → IsTimely now s → IsTimely now (send_beat ms is_battle ts now s)
  unfolding send_beat
  send_beat-IsTimely ts (c, st) t = either (leb c.next_hb_ms now)
    where
      either :
          (b : Bool)
          → IsTimely now (
              if b
              then send_msg ts 2 (ms.beat now) (record c { next_hb_ms = now + 2000 }, st)
              else (c, st))
      either true =
          send_msg-IsTimely now ts 2 (ms.beat now) (record c { next_hb_ms = now + 2000 }, st) t
      either false = t

  start_measuring-IsTimely :
      (s : State) → IsTimely now s → IsTimely now (start_measuring ms is_battle now s)
  start_measuring-IsTimely (c, st) (k, ks) = either (c.pending_seq == 0)
    where
      either :
          (b : Bool)
          → IsTimely now
              ((if b then record c { pending_seq = c.seq; pending_sent_ms = now } else c), st)
      either true = (omega arith, ks)
      either false = (k, ks)

  send_input-IsTimely :
      (fd : ℕ) (ts : List Took) (s : State)
      → IsTimely now s
      → IsTimely now (send_input ms is_battle fd ts now s)
  unfolding send_input
  send_input-IsTimely fd ts (c, st) t = either (is_fighting c.stage && leb c.next_input_ms now)
    where
      sent : State
      sent =
          send_msg ts 20 (ms.player_input ((c.seq + 1) % 2 ^ 32) ((now / 1000 + fd) % 8))
            (record c { next_input_ms = now + 100; seq = (c.seq + 1) % 2 ^ 32 }, st)

      either :
          (b : Bool) → IsTimely now (if b then start_measuring ms is_battle now sent else (c, st))
      either true = start_measuring-IsTimely sent (send_msg-IsTimely now ts 20 _ _ t)
      either false = t

  drive-IsTimely :
      (fd : ℕ) (ts us : List Took) (s : State)
      → IsTimely now s
      → IsTimely now (drive ms is_battle fd ts us now s)
  unfolding drive
  drive-IsTimely fd ts us (c, st) t = either (is_silent c.stage)
    where
      either :
          (b : Bool)
          → IsTimely now (
              if b
              then (c, st)
              else send_input ms is_battle fd us now (send_beat ms is_battle ts now (c, st)))
      either true = t
      either false = send_input-IsTimely fd us _ (send_beat-IsTimely ts (c, st) t)

module _ (ms : Messages) (is_battle : Bool) where
  step-later : (o : Op) (now : ℕ) (s : State) → now ≤ (step ms is_battle o (now, s)).0
  unfolding step
  step-later (elapses d) now s = omega arith
  step-later (events tid i stagger r) now s = omega arith
  step-later (drives fd ts us) now s = omega arith

  run-later : (os : List Op) (now : ℕ) (s : State) → now ≤ (run ms is_battle os (now, s)).0
  unfolding run
  run-later [] now s = omega arith
  run-later (o ∷ os) now s =
      let w = step ms is_battle o (now, s) in
      omega (arith, step-later o now s, run-later os w.0 w.1)

  or_stay-IsTimely :
      (now : ℕ) (small : now < 2 ^ 64) (o : Option State) (s : State)
      → IsTimely now s
      → OnSome ms is_battle now small o
      → IsTimely now (or_stay ms is_battle o s)
  or_stay-IsTimely now small none s t u = t
  or_stay-IsTimely now small (some s') s t u = u

  step-IsTimely :
      (o : Op) (now : ℕ) (s : State)
      → now < 2 ^ 64
      → IsTimely now s
      → let w = step ms is_battle o (now, s) in IsTimely w.0 w.1
  unfolding step
  step-IsTimely (elapses d) now s h t = IsTimely-later now (now + d) s (omega arith) t
  step-IsTimely (events tid i stagger r) now s h t =
      or_stay-IsTimely now h _ s t (on_event-OnSome ms is_battle now h tid i stagger r s t)
  step-IsTimely (drives fd ts us) now s h t = drive-IsTimely ms is_battle now h fd ts us s t

  run-IsTimely :
      (os : List Op) (now : ℕ) (s : State)
      → (run ms is_battle os (now, s)).0 < 2 ^ 64
      → IsTimely now s
      → let w = run ms is_battle os (now, s) in IsTimely w.0 w.1
  unfolding run
  run-IsTimely [] now s h t = t
  run-IsTimely (o ∷ os) now s h t =
      let w = step ms is_battle o (now, s) in
      run-IsTimely os w.0 w.1 h
        (step-IsTimely o now s (omega (arith, h, step-later o now s, run-later os w.0 w.1)) t)

  -- Whatever the sockets do and the server sends: in every state that a connection of the worker reaches,
  -- before its clock exceeds 64 bits, the input that is being measured was not sent later than the clock
  -- shows, and no measured round trip is longer than the clock shows, so that no difference of times has
  -- wrapped around.
  pub run-new-IsTimely :
      (os : List Op) (now : ℕ)
      → (run ms is_battle os (now, (new_conn, new_stats))).0 < 2 ^ 64
      → let w = run ms is_battle os (now, (new_conn, new_stats)) in IsTimely w.0 w.1
  run-new-IsTimely os now h = run-IsTimely os now (new_conn, new_stats) h (omega arith, tt)
