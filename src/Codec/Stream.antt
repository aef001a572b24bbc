-- ===== src/Codec/Stream.antt =====
-- proto/ProtobufCodec.cc: TCP cuts the stream anywhere. However it does, the same messages come out.
use my_game_server.Base.{
  ℕ, ◌+◌, ◌≤◌, ◌<◌, ◌^◌, Bool, true, false, List, [], ◌∷◌, ◌++◌, some, length, ◌≡◌, refl, sym,
  subst, ap, ◌∙◌, append-nil, append_assoc, All, drop-append_le, drop-append,
}
use my_game_server.Buffer.{Buffer, new, read_fd, got}
use my_game_server.Buffer.Valid.{IsValid, contents, new-IsValid}
use my_game_server.Buffer.Bytes.{read_fd_lem}
use my_game_server.Codec.{
  id_len, max_frame_len, encode, Event, message, discarded, reject, on_message, receive,
  then_receive,
}
use my_game_server.Codec.Frame.{
  Next, wait, broken, frame, next, Parses, waits, breaks, delivers, Front, Parses-Front, frame_fits,
  next-append, next-encode,
}
use my_game_server.Codec.Loop.{on_message-Finished}

-- No byte was thrown away.
abbrev pub IsIntact : List Event → Type 0
IsIntact [] = Unit
IsIntact (discarded ∷ es) = ⊥
IsIntact (e ∷ es) = IsIntact es

-- What a parse of `xs ++ ys` is, when `xs` parses to `es` with `r` left over.
abbrev Continues : Bool → List ℕ → List Event → List Event → List ℕ → List ℕ → Type 0
Continues c r es all out ys =
    (fs : List Event) × (all ≡ es ++ fs) × Parses c (r ++ ys) fs out × IsIntact fs × (next r ≡ wait)

Parses-at :
    {c : Bool} {s : List ℕ} {es : List Event} {r : List ℕ} (n : Next)
    → next s ≡ n
    → Parses c s es r
    → Front c s es r n
Parses-at {c} {s} {es} {r} n e p = subst (Front c s es r) e (Parses-Front p)

reject_lossy : (c : Bool) → IsIntact (reject c) → ⊥
reject_lossy true h = h
reject_lossy false h = h

pub Parses-split :
    {c : Bool} {xs : List ℕ} {es : List Event} {r : List ℕ} (ys : List ℕ) (all : List Event)
    (out : List ℕ)
    → Parses c xs es r
    → Parses c (xs ++ ys) all out
    → IsIntact all
    → Continues c r es all out ys
Parses-split ys all out (waits h) q i = (all, refl, q, i, h)
Parses-split {c} {xs} ys all out (breaks h) q i =
    let (e, _) = Parses-at broken (next-append xs ys (λ w. cc (h, w)) ∙ h) q in
    absurd (reject_lossy c (subst IsIntact e i))
Parses-split {c} {r = r} ys all out (delivers xs id body n h {es} p) q i =
    let (gs, e, q') = Parses-at (frame id body n) (next-append xs ys (λ w. cc (h, w)) ∙ h) q in
    let cut = drop-append_le n xs ys (frame_fits xs id body n h).0 in
    let (fs, e', q'', i', w) =
      Parses-split ys gs out p (subst (λ s. Parses c s gs out) cut q') (subst IsIntact e i) in
    (fs, e ∙ ap (◌∷◌ (message id body)) e', q'', i', w)

abbrev pub flatten : List (List ℕ) → List ℕ
flatten [] = []
flatten (c ∷ cs) = c ++ flatten cs

-- The buffer `b` with all chunks behind it parses to `es`, and `receive` delivers just that.
abbrev Receives : Bool → List (List ℕ) → Buffer → List Event → List ℕ → Type 0
Receives c cs b es out =
    (r : Buffer) × (receive c cs b ≡ some (es, r)) × IsValid r × (contents r ≡ out)

receive-cons :
    (c : Bool) (x : List ℕ) (xs : List (List ℕ)) (b : Buffer) (es1 es2 es : List Event)
    (b1 r : Buffer)
    → on_message c (read_fd b (got x)).0 ≡ some (es1, b1)
    → receive c xs b1 ≡ some (es2, r)
    → es ≡ es1 ++ es2
    → receive c (x ∷ xs) b ≡ some (es, r)
unfolding receive
receive-cons c x xs b es1 es2 es b1 r ran later e = rw (ran, then_receive, later, e)

pub receive-Receives :
    (c : Bool) (cs : List (List ℕ)) (b : Buffer) (es : List Event) (out : List ℕ)
    → IsValid b
    → next (contents b) ≡ wait
    → Parses c (contents b ++ flatten cs) es out
    → IsIntact es
    → Receives c cs b es out
unfolding receive
receive-Receives c [] b es out v w p i =
    let (e, o) = Parses-at wait (ap next (append-nil (contents b)) ∙ w) p in
    (b, rw e, v, sym (o ∙ append-nil (contents b)))
receive-Receives c (x ∷ xs) b es out v w p i =
    let (v1, held, _, _) = read_fd_lem b x 0 v in
    let (es1, b1, ran, v2, p1) = on_message-Finished c (read_fd b (got x)).0 v1 in
    let whole =
      subst (λ s. Parses c s es out)
        (sym (append_assoc (contents b) x (flatten xs)) ∙ ap (λ s. s ++ flatten xs) (sym held)) p in
    let (fs, e, p2, i2, w2) = Parses-split (flatten xs) es out p1 whole i in
    let (r, later, v3, o) = receive-Receives c xs b1 fs out v2 w2 p2 i2 in
    (r, receive-cons c x xs b es1 fs es b1 r ran later e, v3, o)

-- A message as the codec sends it: its id and the bytes of its body.
abbrev pub Message : Type 0
Message = ℕ × List ℕ

abbrev pub frames : List Message → List ℕ
frames [] = []
frames ((id, body) ∷ ms) = encode id body ++ frames ms

abbrev pub messages : List Message → List Event
messages [] = []
messages ((id, body) ∷ ms) = message id body ∷ messages ms

-- The id has 16 bits and the frame keeps to the limit of the receiver.
abbrev pub IsSendable : Message → Type 0
IsSendable (id, body) = (id < 2 ^ 16) × (length body + id_len ≤ max_frame_len)

next-nil : next [] ≡ wait
unfolding next
next-nil = refl

pub frames-Parses :
    (c : Bool) (ms : List Message) → All IsSendable ms → Parses c (frames ms) (messages ms) []
frames-Parses c [] h = waits next-nil
frames-Parses c ((id, body) ∷ ms) h =
    delivers (frames ((id, body) ∷ ms)) id body (length (encode id body))
      (next-encode id body (frames ms) h.0.0 h.0.1)
      (subst (λ s. Parses c s (messages ms) []) (sym (drop-append (encode id body) (frames ms)))
        (frames-Parses c ms h.1))

messages-IsIntact : (ms : List Message) → IsIntact (messages ms)
messages-IsIntact [] = tt
messages-IsIntact (m ∷ ms) = messages-IsIntact ms

-- Messages with 16-bit ids and frames within the limit, encoded one after the other and cut into
-- chunks anywhere, arrive at a new connection as the same messages in the same order; nothing stays in
-- the buffer and the connection is not shut down.
pub receive-frames :
    (c : Bool) (ms : List Message) (cs : List (List ℕ))
    → All IsSendable ms
    → flatten cs ≡ frames ms
    → (r : Buffer) × (receive c cs new ≡ some (messages ms, r)) × IsValid r × (contents r ≡ [])
receive-frames c ms cs h e =
    let (v, none_left) = new-IsValid in
    receive-Receives c cs new (messages ms) [] v (ap next none_left ∙ next-nil)
      (subst (λ s. Parses c s (messages ms) []) (sym (ap (λ s. s ++ flatten cs) none_left ∙ e))
        (frames-Parses c ms h))
      (messages-IsIntact ms)

pub Parses-unique :
    {c : Bool} {s : List ℕ} {es fs : List Event} {r t : List ℕ}
    → Parses c s es r
    → Parses c s fs t
    → (es ≡ fs) × (r ≡ t)
Parses-unique (waits h) q = let (e, f) = Parses-at wait h q in (sym e, sym f)
Parses-unique (breaks h) q = let (e, f) = Parses-at broken h q in (sym e, sym f)
Parses-unique (delivers s id body n h p) q =
    let (gs, e, q') = Parses-at (frame id body n) h q in
    let (e', f) = Parses-unique p q' in (ap (◌∷◌ (message id body)) e' ∙ sym e, f)

broken-Parses :
    (c : Bool) (ms : List Message) (bad : List ℕ)
    → All IsSendable ms
    → next bad ≡ broken
    → Parses c (frames ms ++ bad) (messages ms ++ reject c) []
broken-Parses c [] bad h k = breaks k
broken-Parses c ((id, body) ∷ ms) bad h k =
    let regroup = append_assoc (encode id body) (frames ms) bad in
    subst (λ s. Parses c s (message id body ∷ (messages ms ++ reject c)) []) (sym regroup)
      (delivers (encode id body ++ (frames ms ++ bad)) id body (length (encode id body))
        (next-encode id body (frames ms ++ bad) h.0.0 h.0.1)
        (subst (λ s. Parses c s (messages ms ++ reject c) [])
          (sym (drop-append (encode id body) (frames ms ++ bad))) (broken-Parses c ms bad h.1 k)))

-- A frame whose length is out of range, after whole frames that the receiver accepts: the messages
-- before it are delivered, the connection is shut down if there is one, and the buffer is emptied, the
-- bytes behind the bad frame with it.
pub on_message-broken :
    (c : Bool) (ms : List Message) (bad : List ℕ) (b : Buffer)
    → All IsSendable ms
    → IsValid b
    → next bad ≡ broken
    → contents b ≡ frames ms ++ bad
    → (r : Buffer) × (on_message c b ≡ some (messages ms ++ reject c, r)) × (contents r ≡ [])
on_message-broken c ms bad b h v k e =
    let (es, r, ran, _, p) = on_message-Finished c b v in
    let q =
      subst (λ s. Parses c s (messages ms ++ reject c) []) (sym e) (broken-Parses c ms bad h k) in
    let (same, none_left) = Parses-unique p q in (r, ran ∙ ap (λ fs. some (fs, r)) same, none_left)
