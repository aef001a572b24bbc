-- ===== src/Connection.antt =====
-- net/TcpConnection.h and net/TcpConnection.cc: a connection on its IO loop. The socket is outside: what
-- the calls of `write` and `readv` find is an argument, and `sent` is the bytes that `write` took. The
-- callbacks are events in `out`; the message callback is the codec's `onMessage`.
pub mod Streams
pub mod Write
pub mod Order
pub mod Read
pub mod Reports
mod Tests
use my_game_server.Base.{
  ℕ, suc, zero, ◌+◌, ◌==◌, leb, ltb, min, if◌then◌else◌, Bool, true, false, not, ◌&&◌, ◌||◌, List,
  [], ◌∷◌, ◌++◌, Option, none, some, length, take, drop,
}
use my_game_server.Buffer
use my_game_server.Buffer.{
  Buffer, ReadV, got, failed, readable_bytes, peek, append, retrieve, read_fd,
}

-- `enum State`.
pub data Link : Type 0 where
  connecting connected disconnecting disconnected : Link

-- What a call of `write` finds: room for that many bytes, and one more, or an error. It takes as many
-- bytes as there is room for. EAGAIN is `blocked`, EINTR is `interrupted`.
pub data Outlet : Type 0 where
  room_for : ℕ → Outlet
  blocked interrupted broken : Outlet

-- `message_cb` is a message that the codec delivers in the message callback.
pub data Event : Type 0 where
  connection_cb close_cb half_closed : Event
  message_cb : ℕ → List ℕ → Event

-- `writing` is `channel_.isWriting()`, `listening` whether the channel reads.
pub record Connection : Type 0 where
  pub link : Link
  pub input : Buffer
  pub output : Buffer
  pub writing : Bool
  pub listening : Bool
  pub sent : List ℕ
  pub out : List Event

abbrev pub fresh : Connection
fresh = record {
  link = connecting;
  input = Buffer.new;
  output = Buffer.new;
  writing = false;
  listening = false;
  sent = [];
  out = [];
}

abbrev pub say : Event → Connection → Connection
say e c = record c { out = c.out ++ (e ∷ []) }

unfoldable pub connect_established : Connection → Connection
connect_established c = say connection_cb (record c { link = connected; listening = true })

unfoldable pub handle_close : Connection → Connection
handle_close c =
    say close_cb
      (say connection_cb (record c { link = disconnected; writing = false; listening = false }))

-- The error code is fetched and not used.
unfoldable pub handle_error : Connection → Connection
unfolding handle_close
handle_error c = handle_close c

abbrev pub destroy_at : Link → Connection → Connection
destroy_at connected c =
    say connection_cb (record c { link = disconnected; writing = false; listening = false })
destroy_at _ c = c

-- `removeChannel` follows in each case.
unfoldable pub connect_destroyed : Connection → Connection
connect_destroyed c = destroy_at c.link c

unfoldable pub shutdown_in_loop : Connection → Connection
shutdown_in_loop c = if c.writing then c else say half_closed c

abbrev pub shutdown_at : Link → Connection → Connection
shutdown_at connected c = shutdown_in_loop (record c { link = disconnecting })
shutdown_at _ c = c

-- `shutdown`, called on the loop.
unfoldable pub shutdown : Connection → Connection
unfolding shutdown_in_loop
shutdown c = shutdown_at c.link c

-- The part of `sendInLoop` after the direct write: what is left goes to the output buffer.
unfoldable pub keep_rest : List ℕ → Connection → Connection
keep_rest [] c = c
keep_rest (x ∷ xs) c = record c { output = append c.output (x ∷ xs); writing = true }

abbrev pub write_direct : Outlet → List ℕ → Connection → Connection
write_direct (room_for n) msg c =
    keep_rest (drop (suc n) msg) (record c { sent = c.sent ++ take (suc n) msg })
write_direct blocked msg c = keep_rest msg c
write_direct interrupted msg c = keep_rest msg c
write_direct broken msg c = handle_error c

abbrev pub is_down : Link → Bool
is_down disconnected = true
is_down _ = false

-- `sendInLoop`; the outlet is used if the connection writes directly.
unfoldable pub send_in_loop : Outlet → List ℕ → Connection → Connection
unfolding keep_rest handle_error
send_in_loop o msg c =
    if is_down c.link
    then c
    else if not c.writing && (readable_bytes c.output == 0)
    then write_direct o msg c
    else keep_rest msg c

abbrev pub send_at : Link → Outlet → List ℕ → Connection → Connection
send_at connected o msg c = send_in_loop o msg c
send_at _ o msg c = c

-- `send`, called on the loop.
unfoldable pub send : Outlet → List ℕ → Connection → Connection
unfolding send_in_loop
send o msg c = send_at c.link o msg c

abbrev pub finish_at : Link → Connection → Connection
finish_at disconnecting c = shutdown_in_loop c
finish_at _ c = c

-- `handleWrite` behind its loop.
unfoldable pub finish_write : Connection → Connection
unfolding shutdown_in_loop
finish_write c = finish_at c.link (record c { writing = false })

abbrev pub then_write :
    Option Buffer → List ℕ → (Connection → Option Connection) → Connection → Option Connection
then_write none bytes k c = none
then_write (some b) bytes k c = k (record c { output = b; sent = c.sent ++ bytes })

-- The loop of `handleWrite` against what its calls of `write` find; the kernel reports EAGAIN at the
-- end of the list. The outer `none` is a failed assertion of `retrieve`.
unfoldable pub write_loop : List Outlet → Connection → Option Connection
unfolding finish_write handle_error
write_loop [] c = if readable_bytes c.output == 0 then some (finish_write c) else some c
write_loop (room_for n ∷ os) c =
    let len = min (suc n) (readable_bytes c.output) in
    let rest = then_write (retrieve c.output len) (peek c.output 0 len) (write_loop os) c in
    if readable_bytes c.output == 0 then some (finish_write c) else rest
write_loop (blocked ∷ os) c = if readable_bytes c.output == 0 then some (finish_write c) else some c
write_loop (interrupted ∷ os) c =
    let rest = write_loop os c in
    if readable_bytes c.output == 0 then some (finish_write c) else rest
write_loop (broken ∷ os) c =
    if readable_bytes c.output == 0 then some (finish_write c) else some (handle_error c)

unfoldable pub handle_write : List Outlet → Connection → Option Connection
unfolding write_loop
handle_write os c = if c.writing then write_loop os c else some c

-- What happens to a connection on its loop. A `send` from another thread arrives as `sendInLoop`.
pub data Op : Type 0 where
  sends arrives : Outlet → List ℕ → Op
  may_write : List Outlet → Op
  shuts closes destroys : Op

unfoldable pub step : Op → Connection → Option Connection
unfolding send send_in_loop handle_write shutdown handle_close connect_destroyed
step (sends o msg) c = some (send o msg c)
step (arrives o msg) c = some (send_in_loop o msg c)
step (may_write os) c = handle_write os c
step shuts c = some (shutdown c)
step closes c = some (handle_close c)
step destroys c = some (connect_destroyed c)

abbrev pub then_run : Option Connection → (Connection → Option Connection) → Option Connection
then_run none k = none
then_run (some c) k = k c

unfoldable pub run : List Op → Connection → Option Connection
run [] c = some c
run (o ∷ os) c = then_run (step o c) (run os)
