-- ===== src/Connection/Streams.antt =====
-- net/TcpConnection.cc: the stream of bytes that a connection sends, through `sendInLoop` and at the end
-- of `handleWrite`.
use my_game_server.Base.{
  ℕ, suc, ◌==◌, if◌then◌else◌, Bool, true, false, not, ◌&&◌, List, [], ◌∷◌, ◌++◌, take, drop, ◌≡◌,
  ◌⊎◌, refl, sym, ap, subst, ◌∙◌, append-nil, append_assoc, arith, take-append-drop, Bool-cases,
  inl, inr, ==→eq,
}
use my_game_server.Buffer.{Buffer, readable_bytes}
use my_game_server.Buffer.Copy.{slice}
use my_game_server.Buffer.Valid.{IsValid, contents}
use my_game_server.Buffer.Bytes.{append_lem}
use my_game_server.Connection.{
  Link, connecting, connected, disconnecting, disconnected, Outlet, room_for, blocked, interrupted,
  broken, Connection, handle_close, handle_error, shutdown_in_loop, keep_rest, write_direct,
  is_down, send_in_loop, say, half_closed, finish_write, finish_at,
}

-- The bytes that are sent or wait to be, as long as the connection is up.
pub record Streams (c : Connection) (bytes : List ℕ) : Type 0 where
  pub valid : IsValid c.output
  pub stream : c.sent ++ contents c.output ≡ bytes
  -- Bytes only wait if the loop is told when the socket takes more.
  pub watched : c.writing ≡ false → contents c.output ≡ []

-- A connection that is down sends nothing more.
abbrev pub UpStreams : Connection → List ℕ → Type 0
UpStreams c bytes = ((c.link ≡ disconnected) × (c.writing ≡ false)) ⊎ Streams c bytes

pub keep_rest-Streams :
    (msg : List ℕ) (c : Connection) (bytes : List ℕ)
    → Streams c bytes
    → Streams (keep_rest msg c) (bytes ++ msg)
unfolding keep_rest
keep_rest-Streams [] c bytes s = subst (Streams c) (sym (append-nil bytes)) s
keep_rest-Streams (x ∷ xs) c bytes s =
    let (v, e) = append_lem c.output (x ∷ xs) s.valid in
    record {
      valid = v;
      stream =
          ap (λ l. c.sent ++ l) e
          ∙ (sym (append_assoc c.sent (contents c.output) (x ∷ xs))
              ∙ ap (λ l. l ++ (x ∷ xs)) s.stream);
      watched = λ f. cc;
    }

pub nothing_waits : (b : Buffer) → (readable_bytes b == 0) ≡ true → contents b ≡ []
unfolding slice
nothing_waits b h = rw (==→eq _ _ h) refl

pub write_direct-Streams :
    (o : Outlet) (msg : List ℕ) (c : Connection) (bytes : List ℕ)
    → Streams c bytes
    → contents c.output ≡ []
    → UpStreams (write_direct o msg c) (bytes ++ msg)
unfolding handle_error handle_close
write_direct-Streams (room_for n) msg c bytes s e =
    let base : c.sent ≡ bytes =
      sym (append-nil c.sent) ∙ (sym (ap (λ l. c.sent ++ l) e) ∙ s.stream) in
    let part : Streams (record c { sent = c.sent ++ take (suc n) msg })
        (bytes ++ take (suc n) msg) =
      record {
        valid = s.valid;
        stream =
            ap (λ l. (c.sent ++ take (suc n) msg) ++ l) e
            ∙ (append-nil (c.sent ++ take (suc n) msg) ∙ ap (λ l. l ++ take (suc n) msg) base);
        watched = s.watched;
      } in
    inr (
      subst (Streams (write_direct (room_for n) msg c))
        (append_assoc bytes (take (suc n) msg) (drop (suc n) msg)
          ∙ ap (λ l. bytes ++ l) (take-append-drop (suc n) msg))
        (keep_rest-Streams (drop (suc n) msg) _ _ part))
write_direct-Streams blocked msg c bytes s e = inr (keep_rest-Streams msg c bytes s)
write_direct-Streams interrupted msg c bytes s e = inr (keep_rest-Streams msg c bytes s)
write_direct-Streams broken msg c bytes s e = inl (refl, refl)

pub send_in_loop-UpStreams :
    (o : Outlet) (msg : List ℕ) (c : Connection) (bytes : List ℕ)
    → UpStreams c bytes
    → UpStreams (send_in_loop o msg c) (if is_down c.link then bytes else bytes ++ msg)
unfolding send_in_loop
send_in_loop-UpStreams o msg c bytes (inl (d, w)) = rw (ap is_down d) (inl (d, w))
send_in_loop-UpStreams o msg c bytes (inr s) = elim (Bool-cases (is_down c.link)) [
  | inl down ↦ rw down (inr s)
  | inr up ↦ elim (Bool-cases (not c.writing && (readable_bytes c.output == 0))) [
    | inl direct ↦
        rw (up, direct)
          (write_direct-Streams o msg c bytes s (nothing_waits c.output (ground (arith, direct))))
    | inr waits ↦ rw (up, waits) (inr (keep_rest-Streams msg c bytes s))
  ]
]

pub shutdown_in_loop-Streams :
    (c : Connection) (bytes : List ℕ) → Streams c bytes → Streams (shutdown_in_loop c) bytes
unfolding shutdown_in_loop
shutdown_in_loop-Streams c bytes s = either c.writing
  where
    either : (busy : Bool) → Streams (if busy then c else say half_closed c) bytes
    either true = s
    either false = record { valid = s.valid; stream = s.stream; watched = s.watched }

pub finish_write-Streams :
    (c : Connection) (bytes : List ℕ)
    → Streams c bytes
    → (readable_bytes c.output == 0) ≡ true
    → Streams (finish_write c) bytes
unfolding finish_write
finish_write-Streams c bytes s e = at c.link
  where
    done : Streams (record c { writing = false }) bytes
    done = record { valid = s.valid; stream = s.stream; watched = λ f. nothing_waits c.output e }

    at : (l : Link) → Streams (finish_at l (record c { writing = false })) bytes
    at connecting = done
    at connected = done
    at disconnecting = shutdown_in_loop-Streams _ bytes done
    at disconnected = done
