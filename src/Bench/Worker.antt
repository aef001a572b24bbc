-- ===== src/Bench/Worker.antt =====
-- examples/bench_client.cc, `onReadable` and the loop of `worker`, for one connection.
pub mod Timely
pub mod Rtt
mod Tests
use my_game_server.Base.{
  ℕ, zero, suc, ◌+◌, ◌-◌, ◌*◌, ◌/◌, ◌%◌, ◌^◌, ltb, leb, ◌==◌, if◌then◌else◌, Bool, true, false, not,
  ◌&&◌, ◌||◌, List, [], ◌∷◌, ◌++◌, Option, none, some, drop,
}
use my_game_server.Buffer.{Buffer, ReadV}
use my_game_server.Codec.Stream.{Message}
use my_game_server.Connection.Read.{Ending, drained, peer_closed, broke, read_loop}
use my_game_server.Bench.{
  Stage, connecting, wait_login, idle, matching, battle, dead, Conn, Stats, Messages, Took, takes,
  again, refuses, is_empty, State, send_msg, handle_frame,
}
use my_game_server.Bench.Cut.{cut_all}

-- What `epoll_wait` reports, `SO_ERROR`, and what the calls of `readv` and `send` of this event find: a list
-- for each call of `sendMsg`, and one for the writing that goes on.
pub record Report : Type 0 where
  pub can_read : Bool
  pub can_write : Bool
  pub err : Bool
  pub readings : List ReadV
  pub login_sends : List Took
  pub sends : List (List Took)
  pub writes : List Took

abbrev pub next_sends : List (List Took) → List Took × List (List Took)
next_sends [] = ([], [])
next_sends (ts ∷ tss) = (ts, tss)

abbrev pub is_dead : Stage → Bool
is_dead dead = true
is_dead connecting = false
is_dead wait_login = false
is_dead idle = false
is_dead matching = false
is_dead battle = false

abbrev pub is_connecting : Stage → Bool
is_connecting connecting = true
is_connecting dead = false
is_connecting wait_login = false
is_connecting idle = false
is_connecting matching = false
is_connecting battle = false

-- Connections on which nothing is sent by time.
abbrev pub is_silent : Stage → Bool
is_silent dead = true
is_silent connecting = true
is_silent wait_login = true
is_silent idle = false
is_silent matching = false
is_silent battle = false

abbrev pub is_fighting : Stage → Bool
is_fighting battle = true
is_fighting dead = false
is_fighting connecting = false
is_fighting wait_login = false
is_fighting idle = false
is_fighting matching = false

-- The writing that goes on; an error ends it like EAGAIN.
unfoldable pub write_on : List Took → List ℕ → List ℕ
write_on ts [] = []
write_on [] (x ∷ xs) = x ∷ xs
write_on (takes n ∷ ts) (x ∷ xs) = write_on ts (drop n xs)
write_on (again ∷ ts) (x ∷ xs) = x ∷ xs
write_on (refuses ∷ ts) (x ∷ xs) = x ∷ xs

abbrev pub write_at : Bool → List Took → State → State
unfolding write_on
write_at false ts s = s
write_at true ts (c, st) =
    let out = write_on ts c.out in (record c { out = out; wants_out = not (is_empty out) }, st)

unfoldable pub keep_writing : Report → State → State
keep_writing r (c, st) =
    write_at
      (not (is_dead c.stage) && not (is_connecting c.stage) && r.can_write && not (is_empty c.out))
      r.writes (c, st)

pub data Op : Type 0 where
  elapses : ℕ → Op
  events : ℕ → ℕ → ℕ → Report → Op
  drives : ℕ → List Took → List Took → Op

module _ (ms : Messages) (is_battle : Bool) where
  -- The frames are handled after all are cut; no handler changes the buffer.
  unfoldable pub handle_all : List (List Took) → ℕ → List Message → State → State
  unfolding handle_frame
  handle_all tss now [] s = s
  handle_all tss now ((id, body) ∷ fs) (c, st) =
      let (ts, rest) = next_sends tss in
      handle_all rest now fs
        (handle_frame ms is_battle ts now id body (c, record st { recvd = st.recvd + 1 }))

  abbrev pub after_cut :
      List (List Took) → ℕ → Option (List Message × Buffer) → State → Option State
  unfolding handle_all
  after_cut tss now none s = none
  after_cut tss now (some (fs, r)) (c, st) =
      some (handle_all tss now fs (record c { input = r }, st))

  abbrev pub after_read : List (List Took) → ℕ → Ending → State → Option State
  unfolding cut_all
  after_read tss now drained (c, st) = after_cut tss now (cut_all c.input) (c, st)
  after_read tss now peer_closed (c, st) = some (record c { stage = dead }, st)
  after_read tss now broke (c, st) = some (record c { stage = dead }, st)

  -- `onReadable`; `none` is a failed assertion, or a loop that does not end.
  unfoldable pub on_readable : Report → ℕ → State → Option State
  unfolding read_loop
  on_readable r now (c, st) =
      let (e, b) = read_loop r.readings c.input in
      after_read r.sends now e (record c { input = b }, st)

  abbrev pub read_at : Bool → Report → ℕ → State → Option State
  unfolding on_readable
  read_at false r now s = some s
  read_at true r now s = on_readable r now s

  abbrev pub then_write : Report → Option State → Option State
  unfolding keep_writing
  then_write r none = none
  then_write r (some s) = some (keep_writing r s)

  abbrev pub read_and_write : Report → ℕ → State → Option State
  read_and_write r now s = then_write r (read_at r.can_read r now s)

  -- The connection number `i` of the worker `tid`; `stagger` counts the logins before.
  unfoldable pub log_in : ℕ → ℕ → ℕ → Report → ℕ → State → State
  unfolding send_msg
  log_in tid i stagger r now (c, st) =
      let (c1, st1) =
        send_msg r.login_sends 3 (ms.login_req tid i)
          (record c { stage = wait_login }, record st { established = st.established + 1 }) in
      (record c1 { next_hb_ms = now + 500 + stagger % 2000 }, st1)

  -- An event of the connection.
  unfoldable pub on_event : ℕ → ℕ → ℕ → Report → ℕ → State → Option State
  unfolding log_in
  on_event tid i stagger r now (c, st) =
      if is_dead c.stage
      then some (c, st)
      else if is_connecting c.stage && r.can_write
      then (if r.err
          then some (record c { stage = dead }, record st { failed = st.failed + 1 })
          else read_and_write r now (log_in tid i stagger r now (c, st)))
      else read_and_write r now (c, st)

  unfoldable pub send_beat : List Took → ℕ → State → State
  unfolding send_msg
  send_beat ts now (c, st) =
      if leb c.next_hb_ms now
      then send_msg ts 2 (ms.beat now) (record c { next_hb_ms = now + 2000 }, st)
      else (c, st)

  -- One input at a time is measured.
  abbrev pub start_measuring : ℕ → State → State
  start_measuring now (c, st) = (
    if c.pending_seq == 0 then record c { pending_seq = c.seq; pending_sent_ms = now } else c,
    st,
  )

  -- `fd` is the descriptor of the connection.
  unfoldable pub send_input : ℕ → List Took → ℕ → State → State
  unfolding send_msg
  send_input fd ts now (c, st) =
      if is_fighting c.stage && leb c.next_input_ms now
      then (let seq = (c.seq + 1) % 2 ^ 32 in
          start_measuring now (
            send_msg ts 20 (ms.player_input seq ((now / 1000 + fd) % 8))
              (record c { next_input_ms = now + 100; seq = seq }, st)))
      else (c, st)

  -- What the worker does for the connection after the events.
  unfoldable pub drive : ℕ → List Took → List Took → ℕ → State → State
  unfolding send_beat send_input
  drive fd ts us now (c, st) =
      if is_silent c.stage then (c, st) else send_input fd us now (send_beat ts now (c, st))

  -- A worker that is stuck stays as it is.
  abbrev pub or_stay : Option State → State → State
  or_stay none s = s
  or_stay (some s') s = s'

  -- The clock and the connection. Time passes in `elapses`.
  unfoldable pub step : Op → ℕ × State → ℕ × State
  unfolding on_event drive
  step (elapses d) (now, s) = (now + d, s)
  step (events tid i stagger r) (now, s) = (now, or_stay (on_event tid i stagger r now s) s)
  step (drives fd ts us) (now, s) = (now, drive fd ts us now s)

  unfoldable pub run : List Op → ℕ × State → ℕ × State
  unfolding step
  run [] w = w
  run (o ∷ os) w = run os (step o w)
