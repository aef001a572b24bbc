-- ===== src/Connection/Tests.antt =====
-- net/TcpConnection.cc: a connection whose socket is slow, and a peer that closes.
use my_game_server.Base.{ℕ, ◌+◌, true, false, refl, List, [], ◌∷◌, ◌++◌, some, ◌≡◌, ◌⊎◌, ap, arith}
use my_game_server.Buffer
use my_game_server.Buffer.{Buffer, got}
use my_game_server.Poller.{Revents}
use my_game_server.Connection.Reports.{Sockets, handle_report, close_calls, handle_report-twice}
use my_game_server.Buffer.Valid.{new-IsValid}
use my_game_server.Codec.{encode, u32_bytes, u16_bytes}
use my_game_server.Codec.Stream.{Message}
use my_game_server.Connection.{
  disconnected, connection_cb, close_cb, message_cb, room_for, blocked, Connection, fresh,
  connect_established, Op, sends, may_write, shuts, run,
}
use my_game_server.Connection.Streams.{Streams}
use my_game_server.Connection.Order.{taken_all, run-established-Streams}
use my_game_server.Connection.Read.{calls, handle_read, closing, bytes_of, handle_read-closing}

abbrev slow : List Op
slow =
    sends (room_for 0) (1 ∷ 2 ∷ 3 ∷ [])
    ∷ sends blocked (4 ∷ [])
    ∷ shuts
    ∷ may_write (room_for 1 ∷ blocked ∷ [])
    ∷ []

run-established-Streams_example :
    (c' : Connection) × (run slow (connect_established fresh) ≡ some c')
    × (((c'.link ≡ disconnected) × (c'.writing ≡ false))
        ⊎ Streams c' (taken_all slow (connect_established fresh)))
run-established-Streams_example = run-established-Streams slow

abbrev two : List Message
two = (10, 7 ∷ []) ∷ (300, []) ∷ []

abbrev chunks : List (ℕ × List ℕ)
chunks = (0, 0 ∷ []) ∷ (0, 3 ∷ 0 ∷ 10 ∷ 7 ∷ 0 ∷ []) ∷ (0, 0 ∷ 2 ∷ 1 ∷ 44 ∷ []) ∷ []

handle_read-closing_example :
    (d : Connection) × (handle_read (closing chunks) (connect_established fresh) ≡ some d)
    × (d.out
        ≡ connection_cb
          ∷ message_cb 10 (7 ∷ [])
          ∷ message_cb 300 []
          ∷ connection_cb
          ∷ close_cb
          ∷ [])
    × (d.link ≡ disconnected)
    × (d.listening ≡ false)
    × (d.writing ≡ false)
unfolding encode u32_bytes u16_bytes connect_established calls
handle_read-closing_example =
    handle_read-closing two chunks (connect_established fresh) (omega arith) new-IsValid.0
      (ap (λ l. l ++ bytes_of chunks) new-IsValid.1)

-- EPOLLIN, EPOLLERR and EPOLLHUP, as a reset is reported.
abbrev reset : Revents
reset = record {
  hup = true;
  err = true;
  can_read = true;
  pri = false;
  rdhup = true;
  can_write = false;
}

abbrev gone : Sockets
gone = record { readings = got [] ∷ []; outlets = [] }

handle_report-twice_example :
    (d : Connection) × (handle_report reset gone (connect_established fresh) ≡ some d)
    × (close_calls d.out ≡ close_calls (connect_established fresh).out + 2)
unfolding connect_established Buffer.new
handle_report-twice_example =
    handle_report-twice reset gone (connect_established fresh) [] refl refl refl refl
