-- ===== src/Bench/Worker/Tests.antt =====
-- examples/bench_client.cc: a connection that logs in, fights and measures one input.
use my_game_server.Base.{ℕ, true, false, List, [], ◌∷◌, ◌++◌, some, ◌≡◌, refl, ap, ◌∙◌, arith}
use my_game_server.Buffer.{Buffer, new, got, read_fd}
use my_game_server.Buffer.Valid.{IsValid, contents, new-IsValid}
use my_game_server.Buffer.Bytes.{read_fd_lem}
use my_game_server.Codec.{encode, u32_bytes, u16_bytes, read_u32, read_u16}
use my_game_server.Codec.Stream.{Message}
use my_game_server.Codec.Frame.{next}
use my_game_server.Bench.{
  Messages, Took, takes, new_conn, new_stats, send_loop, send_msg, acked, logged_in, measure,
  handle_frame,
}
use my_game_server.Bench.Cut.{cut, cut_fuel, cut_all, cut_all-frames}
use my_game_server.Bench.Worker.{
  Report, Op, elapses, events, drives, run, step, on_event, log_in, on_readable, keep_writing,
  write_on, handle_all, send_beat, send_input, drive,
}
use my_game_server.Bench.Worker.Timely.{IsTimely}
use my_game_server.Bench.Worker.Rtt.{run-new-IsTimely}
use my_game_server.Connection.Read.{read_loop}

abbrev two : List Message
two = (21, 9 ∷ []) ∷ (11, []) ∷ []

abbrev part : List ℕ
part = 0 ∷ 0 ∷ 0 ∷ 9 ∷ 0 ∷ 21 ∷ 1 ∷ []

abbrev filled : Buffer
filled = (read_fd new (got (encode 21 (9 ∷ []) ++ (encode 11 [] ++ part)))).0

cut_all-frames_example :
    (r : Buffer) × (cut_all filled ≡ some (two, r)) × IsValid r × (contents r ≡ part)
unfolding encode u32_bytes u16_bytes next read_u32
cut_all-frames_example =
    let (v, e, _, _) =
      read_fd_lem new (encode 21 (9 ∷ []) ++ (encode 11 [] ++ part)) 0 new-IsValid.0 in
    cut_all-frames two part filled v (omega arith) refl
      (e ∙ ap (λ l. l ++ (encode 21 (9 ∷ []) ++ (encode 11 [] ++ part))) new-IsValid.1)

abbrev messages : Messages
messages = record {
  login_resp = λ b. some (0, 7);
  heartbeat = λ b. some 0;
  snapshot = λ b. some ((8, 0) ∷ (7, 1) ∷ []);
  login_req = λ tid i. tid ∷ i ∷ [];
  match_req = λ pid. pid ∷ [];
  beat = λ now. [];
  player_input = λ seq d. seq ∷ d ∷ [];
}

abbrev all : List Took
all = takes 100 ∷ []

-- The socket takes what it gets, and has these bytes.
abbrev arrives : List ℕ → Report
arrives bytes = record {
  can_read = true;
  can_write = true;
  err = false;
  readings = got bytes ∷ [];
  login_sends = all;
  sends = all ∷ [];
  writes = [];
}

abbrev day : List Op
day =
    events 0 0 0 (arrives (0 ∷ 0 ∷ 0 ∷ 2 ∷ 0 ∷ 4 ∷ 0 ∷ 0 ∷ 0 ∷ 2 ∷ 0 ∷ 11 ∷ []))
    ∷ elapses 100
    ∷ drives 3 all all
    ∷ elapses 30
    ∷ events 0 0 1 (arrives (0 ∷ 0 ∷ 0 ∷ 2 ∷ 0 ∷ 21 ∷ []))
    ∷ []

run-new-IsTimely_example :
    let w = run messages true day (1000, (new_conn, new_stats)) in IsTimely w.0 w.1
unfolding run step
run-new-IsTimely_example = run-new-IsTimely messages true day 1000 (omega arith)

day_measures : (run messages true day (1000, (new_conn, new_stats))).1.1.input_rtt ≡ 30 ∷ []
unfolding run step on_event log_in on_readable keep_writing write_on handle_all drive send_beat
    send_input send_msg send_loop handle_frame logged_in measure acked cut_all cut_fuel cut
    read_loop read_fd new encode u32_bytes u16_bytes read_u32 read_u16
    my_game_server.Buffer.retrieve my_game_server.Buffer.append
    my_game_server.Buffer.ensure_writable my_game_server.Buffer.Copy.slice
    my_game_server.Buffer.Copy.copy my_game_server.Buffer.retrieve_all
day_measures = refl
