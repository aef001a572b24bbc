-- ===== src/Bench.antt =====
-- examples/bench_client.cc: a connection of the load generator with the statistics of its worker. What the
-- sockets do and what the clock shows are arguments; the messages of protobuf are a parameter.
pub mod Cut
pub mod Worker
use my_game_server.Base.{
  ℕ, zero, suc, ◌+◌, ◌-◌, ◌*◌, ◌/◌, ◌%◌, ◌^◌, ltb, leb, ◌==◌, if◌then◌else◌, Bool, true, false, not,
  ◌&&◌, ◌||◌, List, [], ◌∷◌, ◌++◌, Option, none, some, drop,
}
use my_game_server.Buffer.{Buffer, new, ReadV, readable_bytes, peek, retrieve}
use my_game_server.Codec.{read_u32, read_u16, encode}
use my_game_server.Connection.Read.{Ending, drained, peer_closed, broke, read_loop}

pub data Stage : Type 0 where
  connecting wait_login idle matching battle dead : Stage

pub record Conn : Type 0 where
  pub stage : Stage
  pub input : Buffer
  pub out : List ℕ
  pub wants_out : Bool
  pub player_id : ℕ
  pub next_hb_ms : ℕ
  pub next_input_ms : ℕ
  pub seq : ℕ
  pub pending_seq : ℕ
  pub pending_sent_ms : ℕ

abbrev pub new_conn : Conn
new_conn = record {
  stage = connecting;
  input = new;
  out = [];
  wants_out = true;
  player_id = 0;
  next_hb_ms = 0;
  next_input_ms = 0;
  seq = 0;
  pending_seq = 0;
  pending_sent_ms = 0;
}

-- Round trips are kept as whole milliseconds.
pub record Stats : Type 0 where
  pub established : ℕ
  pub failed : ℕ
  pub sent : ℕ
  pub recvd : ℕ
  pub hb_rtt : List ℕ
  pub input_rtt : List ℕ

abbrev pub new_stats : Stats
new_stats = record { established = 0; failed = 0; sent = 0; recvd = 0; hb_rtt = []; input_rtt = [] }

-- The parsers of what the server sends, and the bytes of what is sent to it.
pub record Messages : Type 0 where
  pub login_resp : List ℕ → Option (ℕ × ℕ)
  pub heartbeat : List ℕ → Option ℕ
  pub snapshot : List ℕ → Option (List (ℕ × ℕ))
  pub login_req : ℕ → ℕ → List ℕ
  pub match_req : ℕ → List ℕ
  pub beat : ℕ → List ℕ
  pub player_input : ℕ → ℕ → List ℕ

-- A call of `send`: one byte more than the number is taken, or EAGAIN, or another error. Behind the list
-- the kernel reports EAGAIN.
pub data Took : Type 0 where
  takes : ℕ → Took
  again refuses : Took

-- Whether it failed, and what is left.
unfoldable pub send_loop : List Took → List ℕ → Bool × List ℕ
send_loop ts [] = (false, [])
send_loop [] (x ∷ xs) = (false, x ∷ xs)
send_loop (takes n ∷ ts) (x ∷ xs) = send_loop ts (drop n xs)
send_loop (again ∷ ts) (x ∷ xs) = (false, x ∷ xs)
send_loop (refuses ∷ ts) (x ∷ xs) = (true, x ∷ xs)

abbrev pub is_empty : List ℕ → Bool
is_empty [] = true
is_empty (x ∷ xs) = false

abbrev pub State : Type 0
State = Conn × Stats

abbrev pub after_send : Bool × List ℕ → State → State
after_send (true, out) (c, st) = (record c { out = out; stage = dead }, st)
after_send (false, out) (c, st) =
    (record c { out = out; wants_out = not (is_empty out) }, record st { sent = st.sent + 1 })

-- `sendMsg`.
unfoldable pub send_msg : List Took → ℕ → List ℕ → State → State
unfolding send_loop
send_msg ts id body (c, st) = after_send (send_loop ts (c.out ++ encode id body)) (c, st)

-- The loop over the players of a snapshot.
unfoldable pub acked : ℕ → ℕ → List (ℕ × ℕ) → Bool
acked me pending [] = false
acked me pending ((pid, last) ∷ ps) =
    let rest = acked me pending ps in if (pid == me) && leb pending last then true else rest

-- `nowMs() - t` on `uint64_t`.
abbrev pub since : ℕ → ℕ → ℕ
since now t = (now + 2 ^ 64 - t) % 2 ^ 64

abbrev pub set_stage : Stage → State → State
set_stage s (c, st) = (record c { stage = s }, st)

module _ (ms : Messages) (is_battle : Bool) where
  unfoldable pub logged_in : List Took → Option (ℕ × ℕ) → State → State
  unfolding send_msg
  logged_in ts none s = s
  logged_in ts (some (code, pid)) (c, st) =
      let c1 = record c { player_id = pid } in
      if code == 0
      then (if is_battle
          then set_stage matching (send_msg ts 10 (ms.match_req pid) (c1, st))
          else (record c1 { stage = idle }, st))
      else (c, st)

  abbrev pub beat_back : ℕ → Option ℕ → State → State
  beat_back now none s = s
  beat_back now (some t) (c, st) = (c, record st { hb_rtt = st.hb_rtt ++ (since now t ∷ []) })

  unfoldable pub measure : ℕ → Option (List (ℕ × ℕ)) → State → State
  unfolding acked
  measure now none s = s
  measure now (some ps) (c, st) =
      if acked c.player_id c.pending_seq ps
      then (
        record c { pending_seq = 0 },
        record st { input_rtt = st.input_rtt ++ (since now c.pending_sent_ms ∷ []) },
      )
      else (c, st)

  -- `handleFrame`.
  unfoldable pub handle_frame : List Took → ℕ → ℕ → List ℕ → State → State
  unfolding logged_in measure
  handle_frame ts now id body (c, st) =
      if id == 4
      then logged_in ts (ms.login_resp body) (c, st)
      else if id == 2
      then beat_back now (ms.heartbeat body) (c, st)
      else if id == 11
      then (record c { stage = battle }, st)
      else if id == 21
      then (if c.pending_seq == 0 then (c, st) else measure now (ms.snapshot body) (c, st))
      else (c, st)
