-- ===== src/Connection/Order.antt =====
-- net/TcpConnection.cc: what is sent is one stream of bytes, whichever parts the socket takes at once.
use my_game_server.Base.{
  ℕ, if◌then◌else◌, Bool, true, false, List, [], ◌∷◌, ◌++◌, Option, none, some, ◌≡◌, ◌⊎◌, refl, sym,
  ap, subst, append-nil, append_assoc, Bool-cases, inl, inr,
}
use my_game_server.Buffer.Valid.{new-IsValid}
use my_game_server.Connection.{
  Link, connecting, connected, disconnecting, disconnected, Outlet, Connection, fresh,
  connect_established, handle_close, shutdown, is_down, send_in_loop, send, destroy_at, shutdown_at,
  send_at, Op, sends, arrives, may_write, shuts, closes, destroys, step, run, connect_destroyed,
  write_loop, handle_write,
}
use my_game_server.Connection.Streams.{
  Streams, UpStreams, send_in_loop-UpStreams, shutdown_in_loop-Streams,
}
use my_game_server.Connection.Write.{Writes, write_loop-Writes}

-- The bytes that an event adds to the stream.
abbrev pub sent_at : Link → List ℕ → List ℕ
sent_at connected msg = msg
sent_at _ msg = []

abbrev pub taken : Op → Connection → List ℕ
taken (sends o msg) c = sent_at c.link msg
taken (arrives o msg) c = if is_down c.link then [] else msg
taken (may_write os) c = []
taken shuts c = []
taken closes c = []
taken destroys c = []

abbrev taken_rest : Option Connection → (Connection → List ℕ) → List ℕ
taken_rest none k = []
taken_rest (some c) k = k c

-- The bytes that a sequence of events adds.
unfoldable pub taken_all : List Op → Connection → List ℕ
taken_all [] c = []
taken_all (o ∷ os) c = taken o c ++ taken_rest (step o c) (taken_all os)

none_taken : (c : Connection) (bytes : List ℕ) → UpStreams c bytes → UpStreams c (bytes ++ [])
none_taken c bytes u = subst (UpStreams c) (sym (append-nil bytes)) u

send-UpStreams :
    (l : Link) (o : Outlet) (msg : List ℕ) (c : Connection) (bytes : List ℕ)
    → c.link ≡ l
    → UpStreams c bytes
    → UpStreams (send_at l o msg c) (bytes ++ sent_at l msg)
send-UpStreams connected o msg c bytes e u =
    rw (ap is_down e) at (send_in_loop-UpStreams o msg c bytes u)
send-UpStreams connecting o msg c bytes e u = none_taken c bytes u
send-UpStreams disconnecting o msg c bytes e u = none_taken c bytes u
send-UpStreams disconnected o msg c bytes e u = none_taken c bytes u

arrives-UpStreams :
    (o : Outlet) (msg : List ℕ) (c : Connection) (bytes : List ℕ)
    → UpStreams c bytes
    → UpStreams (send_in_loop o msg c) (bytes ++ (if is_down c.link then [] else msg))
arrives-UpStreams o msg c bytes u =
    let s = send_in_loop-UpStreams o msg c bytes u in
    elim (Bool-cases (is_down c.link)) [
      | inl down ↦
          rw down (subst (UpStreams (send_in_loop o msg c)) (sym (append-nil bytes)) (rw down at s))
      | inr up ↦ rw up (rw up at s)
    ]

shutdown-UpStreams :
    (l : Link) (c : Connection) (bytes : List ℕ)
    → c.link ≡ l
    → UpStreams c bytes
    → UpStreams (shutdown_at l c) bytes
shutdown-UpStreams connected c bytes e (inl (d, w)) = cc
shutdown-UpStreams connected c bytes e (inr s) = inr (
    shutdown_in_loop-Streams (record c { link = disconnecting }) bytes
      (record { valid = s.valid; stream = s.stream; watched = s.watched }))
shutdown-UpStreams connecting c bytes e u = u
shutdown-UpStreams disconnecting c bytes e u = u
shutdown-UpStreams disconnected c bytes e u = u

destroy-UpStreams :
    (l : Link) (c : Connection) (bytes : List ℕ)
    → UpStreams c bytes
    → UpStreams (destroy_at l c) bytes
destroy-UpStreams connected c bytes u = inl (refl, refl)
destroy-UpStreams connecting c bytes u = u
destroy-UpStreams disconnecting c bytes u = u
destroy-UpStreams disconnected c bytes u = u

handle_write-Writes :
    (os : List Outlet) (c : Connection) (bytes : List ℕ)
    → UpStreams c bytes
    → Writes (handle_write os c) bytes
unfolding handle_write
handle_write-Writes os c bytes (inl (d, w)) = (c, rw w refl, inl (d, w))
handle_write-Writes os c bytes (inr s) = elim (Bool-cases c.writing) [
  | inl busy ↦
      let (c', e, u) = write_loop-Writes os c bytes s busy in (c', either c.writing busy e, u)
  | inr idle ↦ (c, none_to_do c.writing idle, inr s)
]
  where
    either :
        {c' : Connection} (b : Bool)
        → b ≡ true
        → write_loop os c ≡ some c'
        → (if b then write_loop os c else some c) ≡ some c'
    either b h e = rw h e

    none_to_do : (b : Bool) → b ≡ false → (if b then write_loop os c else some c) ≡ some c
    none_to_do b h = rw h refl

step-Writes :
    (o : Op) (c : Connection) (bytes : List ℕ)
    → UpStreams c bytes
    → Writes (step o c) (bytes ++ taken o c)
unfolding step send shutdown connect_destroyed handle_close
step-Writes (sends o msg) c bytes u = (_, refl, send-UpStreams c.link o msg c bytes refl u)
step-Writes (arrives o msg) c bytes u = (_, refl, arrives-UpStreams o msg c bytes u)
step-Writes (may_write os) c bytes u =
    let (c', e, v) = handle_write-Writes os c bytes u in (c', e, none_taken c' bytes v)
step-Writes shuts c bytes u =
    (_, refl, none_taken _ bytes (shutdown-UpStreams c.link c bytes refl u))
step-Writes closes c bytes u = (_, refl, inl (refl, refl))
step-Writes destroys c bytes u = (_, refl, none_taken _ bytes (destroy-UpStreams c.link c bytes u))

run-Writes :
    (os : List Op) (c : Connection) (bytes : List ℕ)
    → UpStreams c bytes
    → Writes (run os c) (bytes ++ taken_all os c)
unfolding run taken_all
run-Writes [] c bytes u = (c, refl, none_taken c bytes u)
run-Writes (o ∷ os) c bytes u =
    let (d, e, v) = step-Writes o c bytes u in
    let (c', f, w) = run-Writes os d (bytes ++ taken o c) v in
    (c', rw e f, rw e (subst (UpStreams c') (append_assoc bytes (taken o c) (taken_all os d)) w))

-- Whatever is sent, and however much the socket takes each time, no assertion fails on an established
-- connection; as long as it is up, what `write` took followed by the output buffer is exactly the bytes
-- of the messages that were accepted, in order, and bytes only wait in the buffer while the loop is told
-- when the socket takes more.
pub run-established-Streams :
    (os : List Op)
    → let c = connect_established fresh in
      (c' : Connection) × (run os c ≡ some c')
      × (((c'.link ≡ disconnected) × (c'.writing ≡ false)) ⊎ Streams c' (taken_all os c))
unfolding connect_established
run-established-Streams os =
    let (v, none_left) = new-IsValid in
    run-Writes os (connect_established fresh) []
      (inr (record { valid = v; stream = none_left; watched = λ f. none_left }))
