-- ===== src/Bench/Worker/Timely.antt =====
-- examples/bench_client.cc: what the handling of frames does to the measured round trips.
use my_game_server.Base.{
  ℕ, ◌+◌, ◌^◌, ◌≤◌, ◌<◌, ◌==◌, if◌then◌else◌, Bool, true, false, List, [], ◌∷◌, ◌++◌, Option, none,
  some, arith, All, All-append,
}
use my_game_server.Codec.Stream.{Message}
use my_game_server.Bench.{
  Stage, dead, wait_login, Conn, Stats, Messages, Took, State, after_send, send_loop, send_msg,
  since, acked, logged_in, beat_back, measure, handle_frame, set_stage,
}
use my_game_server.Bench.Worker.{Report, write_at, keep_writing, next_sends, handle_all}

-- The input that is measured was sent by now, and no round trip took longer than the clock shows.
abbrev pub IsTimely : ℕ → State → Type 0
IsTimely clock (c, st) = (c.pending_sent_ms ≤ clock) × All (λ t. t ≤ clock) st.input_rtt

All-later : (a b : ℕ) → a ≤ b → (xs : List ℕ) → All (λ x. x ≤ a) xs → All (λ x. x ≤ b) xs
All-later a b h [] k = tt
All-later a b h (x ∷ xs) (k, ks) = (omega arith, All-later a b h xs ks)

pub IsTimely-later : (a b : ℕ) (s : State) → a ≤ b → IsTimely a s → IsTimely b s
IsTimely-later a b (c, st) h (k, ks) = (omega arith, All-later a b h st.input_rtt ks)

after_send-IsTimely :
    (now : ℕ) (r : Bool × List ℕ) (s : State) → IsTimely now s → IsTimely now (after_send r s)
after_send-IsTimely now (true, out) s t = t
after_send-IsTimely now (false, out) s t = t

pub send_msg-IsTimely :
    (now : ℕ) (ts : List Took) (id : ℕ) (body : List ℕ) (s : State)
    → IsTimely now s
    → IsTimely now (send_msg ts id body s)
unfolding send_msg
send_msg-IsTimely now ts id body (c, st) t = after_send-IsTimely now _ (c, st) t

write_at-IsTimely :
    (now : ℕ) (b : Bool) (ts : List Took) (s : State)
    → IsTimely now s
    → IsTimely now (write_at b ts s)
unfolding write_at
write_at-IsTimely now true ts s t = t
write_at-IsTimely now false ts s t = t

pub keep_writing-IsTimely :
    (now : ℕ) (r : Report) (s : State) → IsTimely now s → IsTimely now (keep_writing r s)
unfolding keep_writing
keep_writing-IsTimely now r (c, st) t = write_at-IsTimely now _ r.writes (c, st) t

since-bound : (now t : ℕ) → now < 2 ^ 64 → t ≤ now → since now t ≤ now
since-bound now t h k = omega arith

module _ (ms : Messages) (is_battle : Bool) (now : ℕ) (small : now < 2 ^ 64) where
  logged_in-IsTimely :
      (ts : List Took) (o : Option (ℕ × ℕ)) (s : State)
      → IsTimely now s
      → IsTimely now (logged_in ms is_battle ts o s)
  unfolding logged_in
  logged_in-IsTimely ts none s t = t
  logged_in-IsTimely ts (some (code, pid)) (c, st) t = either (code == 0) is_battle
    where
      c1 : Conn
      c1 = record c { player_id = pid }

      either :
          (b b' : Bool)
          → IsTimely now (
              if b
              then (if b'
                  then set_stage my_game_server.Bench.matching
                      (send_msg ts 10 (ms.match_req pid) (c1, st))
                  else (record c1 { stage = my_game_server.Bench.idle }, st))
              else (c, st))
      either true true = send_msg-IsTimely now ts 10 (ms.match_req pid) (c1, st) t
      either true false = t
      either false b' = t

  beat_back-IsTimely :
      (o : Option ℕ) (s : State) → IsTimely now s → IsTimely now (beat_back ms is_battle now o s)
  beat_back-IsTimely none s t = t
  beat_back-IsTimely (some x) s t = t

  measure-IsTimely :
      (o : Option (List (ℕ × ℕ))) (s : State)
      → IsTimely now s
      → IsTimely now (measure ms is_battle now o s)
  unfolding measure
  measure-IsTimely none s t = t
  measure-IsTimely (some ps) (c, st) (k, ks) = either (acked c.player_id c.pending_seq ps)
    where
      either :
          (b : Bool)
          → IsTimely now (
              if b
              then (
                record c { pending_seq = 0 },
                record st { input_rtt = st.input_rtt ++ (since now c.pending_sent_ms ∷ []) },
              )
              else (c, st))
      either true = (
        k,
        All-append (λ t. t ≤ now) st.input_rtt (since now c.pending_sent_ms ∷ []) ks
            (since-bound now c.pending_sent_ms small k, tt),
      )
      either false = (k, ks)

  handle_frame-IsTimely :
      (ts : List Took) (id : ℕ) (body : List ℕ) (s : State)
      → IsTimely now s
      → IsTimely now (handle_frame ms is_battle ts now id body s)
  unfolding handle_frame
  handle_frame-IsTimely ts id body (c, st) t =
      by_id (id == 4) (id == 2) (id == 11) (id == 21) (c.pending_seq == 0)
    where
      by_id :
          (b4 b2 b11 b21 b0 : Bool)
          → IsTimely now (
              if b4
              then logged_in ms is_battle ts (ms.login_resp body) (c, st)
              else if b2
              then beat_back ms is_battle now (ms.heartbeat body) (c, st)
              else if b11
              then (record c { stage = my_game_server.Bench.battle }, st)
              else if b21
              then (if b0 then (c, st) else measure ms is_battle now (ms.snapshot body) (c, st))
              else (c, st))
      by_id true b2 b11 b21 b0 = logged_in-IsTimely ts (ms.login_resp body) (c, st) t
      by_id false true b11 b21 b0 = beat_back-IsTimely (ms.heartbeat body) (c, st) t
      by_id false false true b21 b0 = t
      by_id false false false true true = t
      by_id false false false true false = measure-IsTimely (ms.snapshot body) (c, st) t
      by_id false false false false b0 = t

  pub handle_all-IsTimely :
      (tss : List (List Took)) (fs : List Message) (s : State)
      → IsTimely now s
      → IsTimely now (handle_all ms is_battle tss now fs s)
  unfolding handle_all
  handle_all-IsTimely tss [] s t = t
  handle_all-IsTimely tss ((id, body) ∷ fs) (c, st) t =
      handle_all-IsTimely (next_sends tss).1 fs _
        (handle_frame-IsTimely (next_sends tss).0 id body (c, record st { recvd = st.recvd + 1 }) t)
