-- ===== src/Connection/Read.antt =====
-- net/TcpConnection.cc: `handleRead`, with the codec's `onMessage` as the message callback. What a peer
-- sent before it closed is delivered.
use my_game_server.Base.{
  ℕ, ◌==◌, if◌then◌else◌, true, false, List, [], ◌∷◌, ◌++◌, Option, none, some, All, ◌≡◌, refl, sym,
  ap, subst, ◌∙◌, append-nil, append_assoc, Bool-cases, inl, inr,
}
use my_game_server.Buffer.{Buffer, ReadV, got, failed, readable_bytes, read_fd}
use my_game_server.Buffer.Valid.{IsValid, contents}
use my_game_server.Buffer.Bytes.{read_fd_lem}
use my_game_server.Codec
use my_game_server.Codec.{on_message, encode, u32_bytes}
use my_game_server.Connection.Streams.{nothing_waits}
use my_game_server.Codec.Frame.{Parses}
use my_game_server.Codec.Loop.{on_message-Finished}
use my_game_server.Codec.Stream.{
  Message, IsSendable, frames, messages, frames-Parses, Parses-unique,
}
use my_game_server.Connection.{
  Connection, Event, message_cb, connection_cb, close_cb, disconnected, say, handle_close,
  handle_error, shutdown,
}

-- EAGAIN and EINTR of the platform.
abbrev pub eagain : ℕ
eagain = 11

abbrev pub eintr : ℕ
eintr = 4

pub data Ending : Type 0 where
  drained peer_closed broke : Ending

-- The loop over the calls of `readv`; the kernel reports EAGAIN at the end of the list.
unfoldable pub read_loop : List ReadV → Buffer → Ending × Buffer
read_loop [] b = (drained, b)
read_loop (got [] ∷ rs) b = (peer_closed, (read_fd b (got [])).0)
read_loop (got (x ∷ xs) ∷ rs) b = read_loop rs (read_fd b (got (x ∷ xs))).0
read_loop (failed errno ∷ rs) b =
    let rest = read_loop rs b in
    if errno == eagain then (drained, b) else if errno == eintr then rest else (broke, b)

-- What the codec does in the message callback, in order; it shuts the connection down on a bad frame.
unfoldable pub obey : List Codec.Event → Connection → Connection
obey [] c = c
obey (Codec.message id body ∷ es) c = obey es (say (message_cb id body) c)
obey (Codec.shutdown ∷ es) c = obey es (shutdown c)
obey (Codec.discarded ∷ es) c = obey es c

abbrev pub after_message : Option (List Codec.Event × Buffer) → Connection → Option Connection
after_message none c = none
after_message (some (es, b)) c = some (obey es (record c { input = b }))

-- The message callback, if there is something to read.
unfoldable pub deliver : Connection → Option Connection
deliver c =
    if readable_bytes c.input == 0 then some c else after_message (on_message true c.input) c

abbrev pub and_close : Option Connection → Option Connection
and_close none = none
and_close (some c) = some (handle_close c)

abbrev pub read_end : Ending → Connection → Option Connection
read_end drained c = deliver c
read_end peer_closed c = and_close (deliver c)
read_end broke c = some (handle_error c)

-- `handleRead`, with all callbacks in the order of `out`; `none` is a failed assertion.
unfoldable pub handle_read : List ReadV → Connection → Option Connection
unfolding read_loop deliver
handle_read rs c = let (e, b) = read_loop rs c.input in read_end e (record c { input = b })

-- Chunks that `readv` fetches, none of them empty, and then the end of the stream.
abbrev pub closing : List (ℕ × List ℕ) → List ReadV
closing [] = got [] ∷ []
closing ((x, xs) ∷ cs) = got (x ∷ xs) ∷ closing cs

abbrev pub bytes_of : List (ℕ × List ℕ) → List ℕ
bytes_of [] = []
bytes_of ((x, xs) ∷ cs) = (x ∷ xs) ++ bytes_of cs

read_loop-closing :
    (cs : List (ℕ × List ℕ)) (b : Buffer)
    → IsValid b
    → (r : Buffer) × (read_loop (closing cs) b ≡ (peer_closed, r))
      × IsValid r
      × (contents r ≡ contents b ++ bytes_of cs)
unfolding read_loop
read_loop-closing [] b v = let (w, e, _, _) = read_fd_lem b [] 0 v in (_, refl, w, e)
read_loop-closing ((x, xs) ∷ cs) b v =
    let (w, e, _, _) = read_fd_lem b (x ∷ xs) 0 v in
    let (r, f, u, g) = read_loop-closing cs (read_fd b (got (x ∷ xs))).0 w in
    (r, f, u, g ∙ (ap (λ l. l ++ bytes_of cs) e ∙ append_assoc (contents b) (x ∷ xs) (bytes_of cs)))

-- The calls of the message callback for these messages.
unfoldable pub calls : List Message → List Event
calls [] = []
calls ((id, body) ∷ ms) = message_cb id body ∷ calls ms

obey-messages :
    (ms : List Message) (c : Connection)
    → obey (messages ms) c ≡ record c { out = c.out ++ calls ms }
unfolding obey calls
obey-messages [] c = ap (λ o. record c { out = o }) (sym (append-nil c.out))
obey-messages ((id, body) ∷ ms) c =
    obey-messages ms (say (message_cb id body) c)
    ∙ ap (λ o. record c { out = o }) (append_assoc c.out (message_cb id body ∷ []) (calls ms))

frames-nil : (ms : List Message) → frames ms ≡ [] → calls ms ≡ []
unfolding encode u32_bytes calls
frames-nil [] e = refl
frames-nil ((id, body) ∷ ms) e = cc

deliver-frames :
    (ms : List Message) (c : Connection)
    → All IsSendable ms
    → IsValid c.input
    → contents c.input ≡ frames ms
    → (b : Buffer) × (deliver c ≡ some (record c { input = b; out = c.out ++ calls ms }))
unfolding deliver
deliver-frames ms c h v e = elim (Bool-cases (readable_bytes c.input == 0)) [
  | inl none_here ↦
      let n : calls ms ≡ [] = frames-nil ms (sym e ∙ nothing_waits c.input none_here) in
      (
        c.input,
        rw none_here (
            ap (λ o. some (record c { out = o }))
              (sym (ap (λ l. c.out ++ l) n ∙ append-nil c.out))),
      )
  | inr some_here ↦
      let (es, r, ran, w, p) = on_message-Finished true c.input v in
      let (same, _) =
        Parses-unique p
          (subst (λ s. Parses true s (messages ms) []) (sym e) (frames-Parses true ms h)) in
      (
        r,
        rw some_here (
            ap (λ o. after_message o c) ran
            ∙ (ap (λ l. some (obey l (record c { input = r }))) same
                ∙ ap some (obey-messages ms (record c { input = r })))),
      )
]

-- A peer that sends whole frames, in chunks cut anywhere and after what already waits in the buffer, and
-- closes at once. The callbacks of the connection are then called in this order: the message callback
-- for every message, in the order of sending, after that the connection callback and at last the close
-- callback, once each. The connection is down and neither reads nor writes any more.
pub handle_read-closing :
    (ms : List Message) (cs : List (ℕ × List ℕ)) (c : Connection)
    → All IsSendable ms
    → IsValid c.input
    → contents c.input ++ bytes_of cs ≡ frames ms
    → (d : Connection) × (handle_read (closing cs) c ≡ some d)
      × (d.out ≡ c.out ++ (calls ms ++ (connection_cb ∷ close_cb ∷ [])))
      × (d.link ≡ disconnected)
      × (d.listening ≡ false)
      × (d.writing ≡ false)
unfolding handle_read handle_close
handle_read-closing ms cs c h v e =
    let (r, ran, w, f) = read_loop-closing cs c.input v in
    let (b, d) = deliver-frames ms (record c { input = r }) h w (f ∙ e) in
    (
      handle_close (record c { input = b; out = c.out ++ calls ms }),
      rw ran (ap and_close d),
      append_assoc (c.out ++ calls ms) (connection_cb ∷ []) (close_cb ∷ [])
          ∙ append_assoc c.out (calls ms) (connection_cb ∷ close_cb ∷ []),
      refl,
      refl,
      refl,
    )
