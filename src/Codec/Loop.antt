-- ===== src/Codec/Loop.antt =====
-- proto/ProtobufCodec.cc: `onMessage` over a buffer ends, and does what the frame format says.
use my_game_server.Base.{
  ℕ, zero, suc, ◌-◌, ◌<◌, Bool, List, [], ◌∷◌, Option, some, length, take, ◌≡◌, refl, sym, subst,
  length-drop, ap, arith,
}
use my_game_server.Buffer.{Buffer, readable_bytes, retrieve, retrieve_all}
use my_game_server.Buffer.Valid.{IsValid, contents, length-contents}
use my_game_server.Buffer.Bytes.{retrieve_lem, retrieve_all_lem, peek_lem}
use my_game_server.Codec.{
  read_u32, Event, message, reject, Round, halted, after_retrieve, round, on_message_fuel,
  on_message,
}
use my_game_server.Codec.Frame.{
  Next, wait, broken, frame, next, Parses, waits, breaks, delivers, frame_fits,
}

-- What a round does, by what stands at the front.
abbrev round_of : Bool → Buffer → Next → Round
round_of c b wait = halted [] b
round_of c b broken = halted (reject c) (retrieve_all b)
round_of c b (frame id body n) = after_retrieve (message id body) (retrieve b n)

-- A round of the loop decides by `next` on the contents.
pub round_lem : (c : Bool) (b : Buffer) → round c b ≡ round_of c b (next (contents b))
unfolding round next
round_lem c b = ground (
  arith,
  length-contents b,
  peek_lem b 0 4,
  peek_lem b 4 2,
  peek_lem b 6 (read_u32 (take 4 (contents b)) - 2),
)

-- The loop ended: what it delivered and left is a parse of what the buffer held.
abbrev pub Finished : Bool → List ℕ → Option (List Event × Buffer) → Type 0
Finished c s result =
    (es : List Event) × (b : Buffer) × (result ≡ some (es, b))
    × IsValid b
    × Parses c s es (contents b)

round-Finished :
    (fuel : ℕ) (c : Bool) (b : Buffer)
    → ((r : Buffer)
        → readable_bytes r < fuel
        → IsValid r
        → Finished c (contents r) (on_message_fuel fuel c r))
    → readable_bytes b < suc fuel
    → IsValid b
    → (n : Next) → next (contents b) ≡ n
    → Finished c (contents b) (on_message_fuel (suc fuel) c b)
unfolding on_message_fuel
round-Finished fuel c b later h v wait e =
    ([], b, rw (round_lem c b, e, on_message_fuel), v, waits e)
round-Finished fuel c b later h v broken e =
    let (w, none_left) = retrieve_all_lem b v in
    (
      reject c,
      retrieve_all b,
      rw (round_lem c b, e, on_message_fuel),
      w,
      subst (Parses c (contents b) (reject c)) (sym none_left) (breaks e),
    )
round-Finished fuel c b later h v (frame id body n) e =
    let (fits, size) = frame_fits (contents b) id body n e in
    let (r, taken, w, rest) = (retrieve_lem b n v).0 (omega (arith, length-contents b)) in
    let shorter : readable_bytes r < fuel =
      omega
        (arith, length-contents b, length-contents r, ap length rest, length-drop n (contents b)) in
    let (es, r', done, w', p) = later r shorter w in
    (
      message id body ∷ es,
      r',
      rw (round_lem c b, e, taken, after_retrieve, done, on_message_fuel),
      w',
      delivers (contents b) id body n e (subst (λ s. Parses c s es (contents r')) rest p),
    )

loop-Finished :
    (fuel : ℕ) (c : Bool) (b : Buffer)
    → readable_bytes b < fuel
    → IsValid b
    → Finished c (contents b) (on_message_fuel fuel c b)
loop-Finished zero c b h v = absurd (omega arith)
loop-Finished (suc fuel) c b h v =
    round-Finished fuel c b (loop-Finished fuel c) h v (next (contents b)) refl

-- On a valid buffer `onMessage` ends and no assertion fails: it delivers the frames that the bytes in
-- the buffer parse to, and what it leaves in the buffer, valid again, is what the parse leaves.
pub on_message-Finished :
    (c : Bool) (b : Buffer) → IsValid b → Finished c (contents b) (on_message c b)
unfolding on_message
on_message-Finished c b v = loop-Finished (suc (readable_bytes b)) c b (omega arith) v
