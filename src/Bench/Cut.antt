-- ===== src/Bench/Cut.antt =====
-- examples/bench_client.cc, `onReadable`: how it cuts the buffer into frames.
use my_game_server.Base.{
  ℕ, zero, suc, ◌+◌, ◌-◌, ◌%◌, ◌^◌, ◌<◌, ltb, leb, if◌then◌else◌, List, [], ◌∷◌, ◌++◌, Option, none,
  some, ◌≡◌, ap, ◌∙◌, arith, All, length, take, drop, append_assoc, drop-append, length-drop,
}
use my_game_server.Buffer.{Buffer, readable_bytes, peek, retrieve}
use my_game_server.Buffer.Valid.{IsValid, contents, length-contents}
use my_game_server.Buffer.Bytes.{retrieve_lem, peek_lem}
use my_game_server.Codec.{read_u32, read_u16, encode}
use my_game_server.Codec.Frame.{frame, wait, next, next-encode, frame_fits}
use my_game_server.Codec.Stream.{Message, IsSendable, frames}

-- One round of the loop: too little is there, or a frame and the buffer behind it, `none` for a failed
-- assertion. The sums and differences are those of `uint32_t`; of a body that reaches past the buffer's
-- bytes only those that are there are read.
pub data Piece : Type 0 where
  stays : Piece
  piece : ℕ → List ℕ → Option Buffer → Piece

unfoldable pub cut : Buffer → Piece
cut b =
    let len = read_u32 (peek b 0 4) in
    let size = (4 + len) % 2 ^ 32 in
    if leb 6 (readable_bytes b)
    then (if ltb (readable_bytes b) size
        then stays
        else piece (read_u16 (peek b 4 2)) (peek b 6 ((len + 2 ^ 32 - 2) % 2 ^ 32))
            (retrieve b size))
    else stays

abbrev pub with_frame : Message → Option (List Message × Buffer) → Option (List Message × Buffer)
with_frame m none = none
with_frame m (some (ms, b)) = some (m ∷ ms, b)

-- `none` where the fuel runs out or an assertion fails.
unfoldable pub cut_fuel : ℕ → Buffer → Option (List Message × Buffer)
unfolding cut
cut_fuel zero b = none
cut_fuel (suc fuel) b = elim (cut b) [
  | stays ↦ some ([], b)
  | piece id body none ↦ none
  | piece id body (some r) ↦ with_frame (id, body) (cut_fuel fuel r)
]

unfoldable pub cut_all : Buffer → Option (List Message × Buffer)
unfolding cut_fuel
cut_all b = cut_fuel (suc (readable_bytes b)) b

-- A frame that the codec accepts is cut out as the codec does it.
cut-frame :
    (b : Buffer) (id : ℕ) (body : List ℕ) (n : ℕ)
    → next (contents b) ≡ frame id body n
    → cut b ≡ piece id body (retrieve b n)
unfolding cut next
cut-frame b id body n e = ground (
  arith,
  e,
  length-contents b,
  peek_lem b 0 4,
  peek_lem b 4 2,
  peek_lem b 6 (read_u32 (take 4 (contents b)) - 2),
)

-- A part of a frame stays.
cut-stays : (b : Buffer) → next (contents b) ≡ wait → cut b ≡ stays
unfolding cut next
cut-stays b e = ground (arith, e, length-contents b, peek_lem b 0 4)

cut_fuel-frames :
    (fuel : ℕ) (ms : List Message) (rest : List ℕ) (b : Buffer)
    → readable_bytes b < fuel
    → IsValid b
    → All IsSendable ms
    → next rest ≡ wait
    → contents b ≡ frames ms ++ rest
    → (r : Buffer) × (cut_fuel fuel b ≡ some (ms, r)) × IsValid r × (contents r ≡ rest)
unfolding cut_fuel
cut_fuel-frames zero ms rest b f v h k e = absurd (omega arith)
cut_fuel-frames (suc fuel) [] rest b f v h k e =
    (b, rw (cut-stays b (ap next e ∙ k), cut_fuel), v, e)
cut_fuel-frames (suc fuel) ((id, body) ∷ ms) rest b f v h k e =
    let whole : contents b ≡ encode id body ++ (frames ms ++ rest) =
      e ∙ append_assoc (encode id body) (frames ms) rest in
    let n = length (encode id body) in
    let front : next (contents b) ≡ frame id body n =
      ap next whole ∙ next-encode id body (frames ms ++ rest) h.0.0 h.0.1 in
    let (fits, size) = frame_fits (contents b) id body n front in
    let (r, taken, w, left) = (retrieve_lem b n v).0 (omega (arith, length-contents b)) in
    let shorter : readable_bytes r < fuel =
      omega
        (arith, length-contents b, length-contents r, ap length left, length-drop n (contents b)) in
    let behind = left ∙ (ap (drop n) whole ∙ drop-append (encode id body) (frames ms ++ rest)) in
    let (r', ran, w', end) = cut_fuel-frames fuel ms rest r shorter w h.1 k behind in
    (r', rw (cut-frame b id body n front, taken, ran, cut_fuel), w', end)

-- The loop of `onReadable` ends on a buffer that holds frames in range and a part of one behind them:
-- it cuts out the messages in their order, fails no assertion, and keeps what is behind them.
pub cut_all-frames :
    (ms : List Message) (rest : List ℕ) (b : Buffer)
    → IsValid b
    → All IsSendable ms
    → next rest ≡ wait
    → contents b ≡ frames ms ++ rest
    → (r : Buffer) × (cut_all b ≡ some (ms, r)) × IsValid r × (contents r ≡ rest)
unfolding cut_all
cut_all-frames ms rest b v h k e =
    cut_fuel-frames (suc (readable_bytes b)) ms rest b (omega arith) v h k e
