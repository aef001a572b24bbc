-- ===== src/Connection/Reports.antt =====
-- net/Channel.cc and net/TcpConnection.cc: what `epoll_wait` reports of a connection. The constructor of
-- the connection sets all four callbacks of its channel.
use my_game_server.Base.{
  ℕ, suc, ◌+◌, ◌==◌, if◌then◌else◌, Bool, true, false, List, [], ◌∷◌, ◌++◌, Option, none, some, ◌≡◌,
  refl, ap, ◌∙◌, arith, if_true,
}
use my_game_server.Buffer.{Buffer, ReadV, got, readable_bytes, read_fd}
use my_game_server.Poller.{Revents, Callback, closes, errs, reads, writes, handle_event}
use my_game_server.Connection.{
  Connection, Event, connection_cb, close_cb, half_closed, message_cb, Outlet, handle_close,
  handle_error, handle_write,
}
use my_game_server.Connection.Read.{deliver, and_close, handle_read}

-- What the calls of `readv` and of `write` will find in this event.
pub record Sockets : Type 0 where
  pub readings : List ReadV
  pub outlets : List Outlet

unfoldable pub call_back : Sockets → Callback → Connection → Option Connection
unfolding handle_close handle_error handle_read handle_write
call_back s closes c = some (handle_close c)
call_back s errs c = some (handle_error c)
call_back s reads c = handle_read s.readings c
call_back s writes c = handle_write s.outlets c

abbrev pub then_call : Option Connection → (Connection → Option Connection) → Option Connection
then_call none k = none
then_call (some c) k = k c

unfoldable pub call_backs : Sockets → List Callback → Connection → Option Connection
unfolding call_back
call_backs s [] c = some c
call_backs s (cb ∷ cbs) c = then_call (call_back s cb c) (call_backs s cbs)

-- `Channel::handleEvent` of the connection's channel; `none` is a failed assertion.
unfoldable pub handle_report : Revents → Sockets → Connection → Option Connection
unfolding handle_event call_backs
handle_report r s c = call_backs s (handle_event r (λ cb. true)) c

-- How often the server was told that the connection is closed.
unfoldable pub close_calls : List Event → ℕ
close_calls [] = 0
close_calls (close_cb ∷ es) = suc (close_calls es)
close_calls (connection_cb ∷ es) = close_calls es
close_calls (half_closed ∷ es) = close_calls es
close_calls (message_cb id body ∷ es) = close_calls es

close_calls-append : (es fs : List Event) → close_calls (es ++ fs) ≡ close_calls es + close_calls fs
unfolding close_calls
close_calls-append [] fs = omega arith
close_calls-append (close_cb ∷ es) fs = omega (arith, close_calls-append es fs)
close_calls-append (connection_cb ∷ es) fs = close_calls-append es fs
close_calls-append (half_closed ∷ es) fs = close_calls-append es fs
close_calls-append (message_cb id body ∷ es) fs = close_calls-append es fs

close_calls-handle_close :
    (c : Connection) → close_calls (handle_close c).out ≡ close_calls c.out + 1
unfolding handle_close close_calls
close_calls-handle_close c = omega (
  arith,
  close_calls-append c.out (connection_cb ∷ []),
  close_calls-append (c.out ++ (connection_cb ∷ [])) (close_cb ∷ []),
)

-- Both callbacks of an error report, and that for writing if the socket can be written.
error_report :
    (r : Revents)
    → r.err ≡ true
    → r.can_read ≡ true
    → handle_event r (λ cb. true) ≡ errs ∷ (reads ∷ (if r.can_write then writes ∷ [] else []))
unfolding handle_event
error_report r e f = ground arith

reads_end : (b : Buffer) → readable_bytes b ≡ 0 → readable_bytes (read_fd b (got [])).0 ≡ 0
unfolding read_fd
reads_end b h = ground arith

-- The end of the stream closes a connection that has nothing to deliver.
handle_read-ended :
    (rs : List ReadV) (c : Connection)
    → readable_bytes c.input ≡ 0
    → handle_read (got [] ∷ rs) c
      ≡ some (handle_close (record c { input = (read_fd c.input (got [])).0 }))
unfolding handle_read deliver
handle_read-ended rs c h = ap and_close (if_true _ _ (ap (λ n. n == 0) (reads_end c.input h)))

handle_write-closed :
    (s : Sockets) (w : Bool) (c : Connection)
    → call_backs s (if w then writes ∷ [] else []) (handle_close c) ≡ some (handle_close c)
unfolding call_backs handle_close handle_write
handle_write-closed s true c = refl
handle_write-closed s false c = refl

-- A connection that is reset, or fails otherwise while the peer has gone: the report has EPOLLERR along
-- with EPOLLIN, the error callback closes the connection, and the read callback then reads the end of the
-- stream and closes it again. If nothing was left to deliver, the server is told twice.
pub handle_report-twice :
    (r : Revents) (s : Sockets) (c : Connection) (rs : List ReadV)
    → r.err ≡ true
    → r.can_read ≡ true
    → s.readings ≡ got [] ∷ rs
    → readable_bytes c.input ≡ 0
    → (d : Connection) × (handle_report r s c ≡ some d)
      × (close_calls d.out ≡ close_calls c.out + 2)
unfolding handle_report
handle_report-twice r s c rs e f g h =
    let c1 = handle_close c in
    let c2 : Connection = record c1 { input = (read_fd c.input (got [])).0 } in
    (
      handle_close c2,
      ap (λ cbs. call_backs s cbs c) (error_report r e f)
          ∙ ap (λ o. then_call o (call_backs s (if r.can_write then writes ∷ [] else [])))
              (ap (λ q. handle_read q c1) g ∙ handle_read-ended rs c1 h)
          ∙ handle_write-closed s r.can_write c2,
      close_calls-handle_close c2 ∙ omega (arith, close_calls-handle_close c),
    )
