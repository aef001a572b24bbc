-- ===== src/Bot/Reading.antt =====
-- examples/bot_client.cc: what `recvFrame` makes of the bytes that the server's codec encodes.
use my_game_server.Base.{
  ℕ, zero, suc, ◌+◌, ◌-◌, ◌%◌, ◌^◌, ◌<◌, ◌≤◌, min, ◌==◌, if◌then◌else◌, List, [], ◌∷◌, ◌++◌, Option,
  none, some, length, take, drop, ◌≡◌, refl, arith, All, length-append, length-take, length-drop,
  take-append, drop-append, drop-drop, append-nil, if_false, ne→==, append_assoc, sym, ap, subst,
  ◌∙◌,
}
use my_game_server.Codec.{read_u16, encode, u32_bytes, u16_bytes}
use my_game_server.Codec.Frame.{read_u32-bytes, read_u16-bytes}
use my_game_server.Bot.Socket.{
  Recv, gives, fails, Socket, recv_n, recv_body, recv_rest, recv_frame, Gives,
}

-- Without failures, and with an entry of the script for each byte, the bytes come whole, however they are
-- cut into pieces; of the script, what is left has no failure either.
abbrev Got : List Recv → ℕ → List ℕ → List ℕ → Option (List ℕ) × Socket → Type 0
Got script n stream dst r =
    (r.0 ≡ some (dst ++ take n stream))
    × (r.1.stream ≡ drop n stream)
    × All Gives r.1.script
    × (length script ≤ length r.1.script + n)

take-nil : (n : ℕ) → take {A = ℕ} n [] ≡ []
take-nil zero = refl
take-nil (suc n) = refl

take-split : (m n : ℕ) (xs : List ℕ) → m ≤ n → take m xs ++ take (n - m) (drop m xs) ≡ take n xs
take-split zero n xs h = ap (λ k. take k xs) (let e : n - 0 ≡ n = omega arith in e)
take-split (suc m) zero xs h = absurd (omega arith)
take-split (suc m) (suc n) [] h = take-nil (suc n - suc m)
take-split (suc m) (suc n) (x ∷ xs) h = ap (◌∷◌ x) (
    ap (λ k. take m xs ++ take k (drop m xs)) (let e : suc n - suc m ≡ n - m = omega arith in e)
    ∙ take-split m n xs (omega arith))

-- One call of `recv` that finds a byte.
recv_n-step :
    (j : ℕ) (script : List Recv) (n b : ℕ) (stream dst : List ℕ)
    → min j n ≤ length stream
    → let m = min j n in
      recv_n (gives j ∷ script) (suc n) (b ∷ stream) dst
      ≡ recv_n script (n - m) (drop m stream) (dst ++ (b ∷ take m stream))
unfolding recv_n
recv_n-step j script n b stream dst h =
    ap
      (λ l.
        if suc l == 0
        then (none, record { stream = b ∷ stream; script = script })
        else recv_n script (suc n - suc l) (drop l stream) (dst ++ (b ∷ take (min j n) stream)))
      size
    ∙ if_false _ _ (ne→== (suc (min j n)) 0 (λ z. omega arith))
    ∙ ap (λ k. recv_n script k (drop (min j n) stream) (dst ++ (b ∷ take (min j n) stream))) left
  where
    size : length (take (min j n) stream) ≡ min j n
    size = omega (arith, length-take (min j n) stream)

    left : suc n - suc (min j n) ≡ n - min j n
    left = omega arith

recv_n-Got :
    (script : List Recv) (n : ℕ) (stream dst : List ℕ)
    → All Gives script
    → n ≤ length script
    → n ≤ length stream
    → Got script n stream dst (recv_n script n stream dst)
unfolding recv_n
recv_n-Got script zero stream dst g h k = (ap some (sym (append-nil dst)), refl, g, omega arith)
recv_n-Got [] (suc n) stream dst g h k = absurd (omega arith)
recv_n-Got (fails ∷ script) (suc n) stream dst g h k = elim g.0 [ ]
recv_n-Got (gives j ∷ script) (suc n) [] dst g h k = absurd (omega arith)
recv_n-Got (gives j ∷ script) (suc n) (b ∷ stream) dst g h k =
    let m = min j n in
    let (bytes, rest, fine, long) =
      recv_n-Got script (n - m) (drop m stream) (dst ++ (b ∷ take m stream)) g.1 (omega arith)
        (omega (arith, length-drop m stream)) in
    subst (Got (gives j ∷ script) (suc n) (b ∷ stream) dst)
      (sym (recv_n-step j script n b stream dst (omega arith)))
      (
        bytes
            ∙ ap some (
                append_assoc dst (b ∷ take m stream) _
                ∙ ap (λ t. dst ++ (b ∷ t)) (take-split m n stream (omega arith))),
        rest
            ∙ drop-drop (n - m) m stream
            ∙ ap (λ k. drop k stream) (let e : m + (n - m) ≡ n = omega arith in e),
        fine,
        omega arith,
      )

abbrev header : ℕ → List ℕ → List ℕ
header id body = u32_bytes (2 + length body) ++ u16_bytes id

abbrev Reads : ℕ → List ℕ → List ℕ → Option (ℕ × List ℕ) × Socket → Type 0
Reads id body rest r = (r.0 ≡ some (id, body)) × (r.1.stream ≡ rest)

recv_body-Reads :
    (id : ℕ) (body rest : List ℕ) (r : Option (List ℕ) × Socket)
    → r.0 ≡ some body
    → r.1.stream ≡ rest
    → Reads id body rest (recv_body id r)
recv_body-Reads id body rest (none, s) e f = absurd (cc)
recv_body-Reads id body rest (some b, s) e f = (cc, f)

-- The second half, once the numbers of the header were read.
body-Reads :
    (id : ℕ) (body rest : List ℕ) (s : Socket)
    → All Gives s.script
    → length body ≤ length s.script
    → s.stream ≡ body ++ rest
    → Reads id body rest (
        if 2 + length body == 2
        then (some (id, []), s)
        else recv_body id (recv_n s.script (length body) s.stream []))
body-Reads id [] rest s g long e = (refl, e)
body-Reads id (b ∷ bs) rest s g long e =
    let body : List ℕ = b ∷ bs in
    let (bytes, left, fine, size) =
      recv_n-Got s.script (length body) s.stream [] g long
        (omega (arith, ap length e, length-append body rest)) in
    subst (Reads id body rest) (sym (if_false _ _ (ne→== (2 + length body) 2 (λ z. omega arith)))) (
      recv_body-Reads id body rest _
        (bytes ∙ ap some (ap (take (length body)) e ∙ take-append body rest))
        (left ∙ ap (drop (length body)) e ∙ drop-append body rest))

header-Reads :
    (id : ℕ) (body rest : List ℕ) (s : Socket)
    → id < 2 ^ 16
    → length body + 2 < 2 ^ 32
    → All Gives s.script
    → length body ≤ length s.script
    → s.stream ≡ body ++ rest
    → Reads id body rest (recv_rest (some (header id body), s))
unfolding u32_bytes u16_bytes
header-Reads id body rest s h k g long e =
    subst (Reads id body rest)
      (sym (
        ap (λ l. numbers l (read_u16 (u16_bytes id)) ((l + 2 ^ 32 - 2) % 2 ^ 32))
          (read_u32-bytes (2 + length body) (omega arith))
        ∙ ap (λ i. numbers (2 + length body) i ((2 + length body + 2 ^ 32 - 2) % 2 ^ 32))
            (read_u16-bytes id h)
        ∙ ap (numbers (2 + length body) id) size))
      (body-Reads id body rest s g long e)
  where
    numbers : ℕ → ℕ → ℕ → Option (ℕ × List ℕ) × Socket
    numbers l i n =
        if l == 2 then (some (i, []), s) else recv_body i (recv_n s.script n s.stream [])

    size : (2 + length body + 2 ^ 32 - 2) % 2 ^ 32 ≡ length body
    size = omega arith

-- Over a connection that never makes it wait too long, the client reads what the server encodes: of any
-- frame with a 16-bit id and a body that the 32-bit length can count, `recvFrame` returns the id and the
-- body and leaves exactly what follows the frame, into whatever pieces the kernel cuts the bytes.
pub recv_frame-encode :
    (id : ℕ) (body rest : List ℕ) (script : List Recv)
    → id < 2 ^ 16
    → length body + 2 < 2 ^ 32
    → All Gives script
    → 6 + length body ≤ length script
    → let r = recv_frame (record { stream = encode id body ++ rest; script = script }) in
      (r.0 ≡ some (id, body)) × (r.1.stream ≡ rest)
unfolding recv_frame encode u32_bytes u16_bytes
recv_frame-encode id body rest script h k g long =
    from_header _ (recv_n-Got script 6 (encode id body ++ rest) [] g (omega arith) (omega arith))
  where
    from_header :
        (r : Option (List ℕ) × Socket)
        → Got script 6 (encode id body ++ rest) [] r
        → Reads id body rest (recv_rest r)
    from_header r (head, left, fine, size) =
        subst (λ o. Reads id body rest (recv_rest (o, r.1))) (sym head)
          (header-Reads id body rest r.1 h k fine (omega arith) left)

-- If the 100 ms pass after a part of a header has arrived, `recvFrame` fails and the part is gone: the
-- next frame is read from the middle of this one.
pub recv_frame-fails :
    (j : ℕ) (stream : List ℕ) (script : List Recv)
    → j < 5
    → suc j ≤ length stream
    → recv_frame (record { stream = stream; script = gives j ∷ (fails ∷ script) })
      ≡ (none, record { stream = drop (suc j) stream; script = script })
unfolding recv_frame recv_n
recv_frame-fails j [] script h k = absurd (omega arith)
recv_frame-fails j (b ∷ stream) script h k = ap recv_rest (
    recv_n-step j (fails ∷ script) 5 b stream [] (omega arith)
    ∙ ap (λ m. recv_n (fails ∷ script) (5 - m) (drop m stream) (b ∷ take m stream))
        (let e : min j 5 ≡ j = omega arith in e)
    ∙ ap (λ n. recv_n (fails ∷ script) n (drop j stream) (b ∷ take j stream))
        (let e : 5 - j ≡ suc (4 - j) = omega arith in e))
