-- ===== src/Connection/Write.antt =====
-- net/TcpConnection.cc: the loop of `handleWrite` keeps the stream of bytes, and no assertion fails in it.
use my_game_server.Base.{
  ℕ, suc, ◌+◌, ◌-◌, ◌≤◌, ◌==◌, min, true, false, List, [], ◌∷◌, ◌++◌, Option, some, drop, ◌≡◌, refl,
  sym, ap, ◌∙◌, append_assoc, arith, Bool-cases, inl, inr,
}
use my_game_server.Buffer.{Buffer, readable_bytes, peek, retrieve}
use my_game_server.Buffer.Copy.{slice, slice-append}
use my_game_server.Buffer.Valid.{contents}
use my_game_server.Buffer.Bytes.{drop-slice, retrieve_lem}
use my_game_server.Connection.{
  Outlet, room_for, blocked, interrupted, broken, Connection, handle_close, handle_error,
  finish_write, then_write, write_loop,
}
use my_game_server.Connection.Streams.{Streams, UpStreams, finish_write-Streams}

-- A result of the loop that is no failed assertion.
abbrev pub Writes : Option Connection → List ℕ → Type 0
Writes o bytes = (c : Connection) × (o ≡ some c) × UpStreams c bytes

peek_front :
    (b : Buffer) (len : ℕ)
    → len ≤ readable_bytes b
    → peek b 0 len ++ drop len (contents b) ≡ contents b
peek_front b len h =
    let i : b.reader + 0 ≡ b.reader = omega arith in
    let n : len + (readable_bytes b - len) ≡ readable_bytes b = omega arith in
    ap (λ j. slice b.bytes j len ++ drop len (contents b)) i
    ∙ (ap (λ l. slice b.bytes b.reader len ++ l)
          (drop-slice b.bytes b.reader len (readable_bytes b) h)
        ∙ (sym (slice-append b.bytes b.reader len (readable_bytes b - len))
            ∙ ap (λ m. slice b.bytes b.reader m) n))

-- One `write` that takes `len` bytes of those that wait.
take_off :
    (c : Connection) (bytes : List ℕ) (len : ℕ) (k : Connection → Option Connection)
    → Streams c bytes
    → len ≤ readable_bytes c.output
    → c.writing ≡ true
    → ((d : Connection) → Streams d bytes → d.writing ≡ true → Writes (k d) bytes)
    → Writes (then_write (retrieve c.output len) (peek c.output 0 len) k c) bytes
take_off c bytes len k s fits w rest =
    let (r, e, v, left) = (retrieve_lem c.output len s.valid).0 fits in
    let d : Connection = record c { output = r; sent = c.sent ++ peek c.output 0 len } in
    let (c', f, u) =
      rest d
        (record {
          valid = v;
          stream =
              append_assoc c.sent (peek c.output 0 len) (contents r)
              ∙ (ap (λ l. c.sent ++ (peek c.output 0 len ++ l)) left
                  ∙ (ap (λ l. c.sent ++ l) (peek_front c.output len fits) ∙ s.stream));
          watched = λ f. cc;
        })
        w in
    (c', rw e f, u)

pub write_loop-Writes :
    (os : List Outlet) (c : Connection) (bytes : List ℕ)
    → Streams c bytes
    → c.writing ≡ true
    → Writes (write_loop os c) bytes
unfolding write_loop handle_error handle_close
write_loop-Writes [] c bytes s w = elim (Bool-cases (readable_bytes c.output == 0)) [
  | inl all ↦ (finish_write c, rw all refl, inr (finish_write-Streams c bytes s all))
  | inr more ↦ (c, rw more refl, inr s)
]
write_loop-Writes (o ∷ os) c bytes s w = elim (Bool-cases (readable_bytes c.output == 0)) [
  | inl all ↦ (finish_write c, finished o all, inr (finish_write-Streams c bytes s all))
  | inr more ↦ goes_on o more (write_loop-Writes os)
]
  where
    finished :
        (o : Outlet)
        → (readable_bytes c.output == 0) ≡ true
        → write_loop (o ∷ os) c ≡ some (finish_write c)
    finished (room_for n) all = rw all refl
    finished blocked all = rw all refl
    finished interrupted all = rw all refl
    finished broken all = rw all refl

    goes_on :
        (o : Outlet)
        → (readable_bytes c.output == 0) ≡ false
        → ((d : Connection) (l : List ℕ)
            → Streams d l
            → d.writing ≡ true
            → Writes (write_loop os d) l)
        → Writes (write_loop (o ∷ os) c) bytes
    goes_on (room_for n) more rest = rw more (
        take_off c bytes (min (suc n) (readable_bytes c.output)) (write_loop os) s (omega arith) w
          (λ d. rest d bytes))
    goes_on blocked more rest = (c, rw more refl, inr s)
    goes_on interrupted more rest = rw more (rest c bytes s w)
    goes_on broken more rest = (handle_error c, rw more refl, inl (refl, refl))
