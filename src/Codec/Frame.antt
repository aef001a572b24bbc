-- ===== src/Codec/Frame.antt =====
-- proto/ProtobufCodec.cc: the frame format on plain byte strings, as a relation between what arrived,
-- what is delivered and what stays in the buffer.
use my_game_server.Base.{
  ℕ, ◌+◌, ◌-◌, ◌^◌, ◌≤◌, ◌<◌, ltb, if◌then◌else◌, Bool, ◌||◌, List, [], ◌∷◌, ◌++◌, length, take,
  drop, ◌≡◌, ◌≢◌, refl, ◌∙◌, arith, length-append, take-append, take-append_le, drop-append_le,
  length-drop,
}
use my_game_server.Codec.{
  header_len, id_len, max_frame_len, read_u32, read_u16, u32_bytes, u16_bytes, encode, Event,
  message, reject,
}

-- What stands at the front of a byte string: too little, a length out of range, or a frame with its
-- id, its body and its size.
pub data Next : Type 0 where
  wait broken : Next
  frame : ℕ → List ℕ → ℕ → Next

unfoldable pub next : List ℕ → Next
next s =
    let len = read_u32 (take 4 s) in
    if ltb (length s) header_len
    then wait
    else if ltb len id_len || ltb max_frame_len len
    then broken
    else if ltb (length s) (header_len + len)
    then wait
    else frame (read_u16 (take 2 (drop 4 s))) (take (len - id_len) (drop 6 s)) (header_len + len)

-- `Parses c s es r`: of the bytes `s`, the events `es` come out and `r` stays.
pub data Parses (has_conn : Bool) : List ℕ → List Event → List ℕ → Type 0 where
  waits : {s : List ℕ} → next s ≡ wait → Parses has_conn s [] s
  breaks : {s : List ℕ} → next s ≡ broken → Parses has_conn s (reject has_conn) []
  delivers :
      (s : List ℕ) (id : ℕ) (body : List ℕ) (n : ℕ)
      → next s ≡ frame id body n
      → {es : List Event} {r : List ℕ} → Parses has_conn (drop n s) es r
      → Parses has_conn s (message id body ∷ es) r

-- What the front of `s` says of a parse of `s`.
abbrev pub Front : Bool → List ℕ → List Event → List ℕ → Next → Type 0
Front c s es r wait = (es ≡ []) × (r ≡ s)
Front c s es r broken = (es ≡ reject c) × (r ≡ [])
Front c s es r (frame id body n) =
    (fs : List Event) × (es ≡ message id body ∷ fs) × Parses c (drop n s) fs r

pub Parses-Front :
    {c : Bool} {s : List ℕ} {es : List Event} {r : List ℕ}
    → Parses c s es r
    → Front c s es r (next s)
Parses-Front (waits h) = rw h (refl, refl)
Parses-Front (breaks h) = rw h (refl, refl)
Parses-Front (delivers s id body n h {es} p) = rw h (es, refl, p)

-- A frame at the front takes what `next` says, and lies in the string.
pub frame_fits :
    (s : List ℕ) (id : ℕ) (body : List ℕ) (n : ℕ)
    → next s ≡ frame id body n
    → (n ≤ length s) × (6 ≤ n)
unfolding next
frame_fits s id body n h = ground arith

window-append :
    (i n : ℕ) (s t : List ℕ) → i + n ≤ length s → take n (drop i (s ++ t)) ≡ take n (drop i s)
window-append i n s t h =
    rw (drop-append_le i s t (omega arith))
      (take-append_le n (drop i s) t (omega (arith, length-drop i s)))

-- What arrives later does not change what stands at the front.
pub next-append : (s t : List ℕ) → next s ≢ wait → next (s ++ t) ≡ next s
unfolding next
next-append s t h = ground (
  arith,
  length-append s t,
  take-append_le 4 s t,
  window-append 4 2 s t,
  window-append 6 (read_u32 (take 4 s) - 2) s t,
)

-- A frame in range, of which the whole has arrived.
next-whole :
    (s : List ℕ) (len : ℕ)
    → read_u32 (take 4 s) ≡ len
    → id_len ≤ len
    → len ≤ max_frame_len
    → header_len + len ≤ length s
    → next s
      ≡ frame (read_u16 (take 2 (drop 4 s))) (take (len - id_len) (drop 6 s)) (header_len + len)
unfolding next
next-whole s len e lo hi fits = ground arith

pub read_u32-bytes : (n : ℕ) → n < 2 ^ 32 → read_u32 (u32_bytes n) ≡ n
unfolding read_u32 u32_bytes
read_u32-bytes n h = omega arith

pub read_u16-bytes : (n : ℕ) → n < 2 ^ 16 → read_u16 (u16_bytes n) ≡ n
unfolding read_u16 u16_bytes
read_u16-bytes n h = omega arith

-- An encoded message in front is read back, whatever follows it.
pub next-encode :
    (id : ℕ) (body rest : List ℕ)
    → id < 2 ^ 16
    → length body + id_len ≤ max_frame_len
    → next (encode id body ++ rest) ≡ frame id body (length (encode id body))
unfolding encode u32_bytes u16_bytes
next-encode id body rest h k =
    next-whole (encode id body ++ rest) (id_len + length body)
      (read_u32-bytes (id_len + length body) (omega arith)) (omega arith) (omega arith)
      (omega (arith, length-append body rest))
    ∙ same
  where
    n : 2 + length body - 2 ≡ length body
    n = omega arith

    size : 4 + (2 + length body) ≡ length (encode id body)
    size = omega arith

    same :
        frame
          (read_u16 (u16_bytes id))
          (take (2 + length body - 2) (body ++ rest))
          (4 + (2 + length body))
        ≡ frame id body (length (encode id body))
    same = rw (read_u16-bytes id h, n, take-append body rest, size)

pub length-encode : (id : ℕ) (body : List ℕ) → length (encode id body) ≡ 6 + length body
unfolding encode u32_bytes u16_bytes
length-encode id body = omega arith
