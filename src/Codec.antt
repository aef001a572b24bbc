-- ===== src/Codec.antt =====
-- proto/ProtobufCodec.h and proto/ProtobufCodec.cc: frames | len (4 bytes) | id (2 bytes) | body |, the
-- numbers in network order. A protobuf message is the list of bytes that it serializes to.
pub mod Frame
pub mod Loop
pub mod Stream
mod Tests
use my_game_server.Base.{
  ℕ, zero, suc, ◌+◌, ◌-◌, ◌*◌, ◌/◌, ◌%◌, ◌^◌, ltb, leb, if◌then◌else◌, Bool, true, false, ◌||◌,
  List, [], ◌∷◌, ◌++◌, Option, none, some, length, get_or,
}
use my_game_server.Buffer.{
  Buffer, readable_bytes, peek, retrieve, retrieve_all, read_fd, ReadV, got,
}

abbrev pub header_len : ℕ
header_len = 4

abbrev pub id_len : ℕ
id_len = 2

abbrev pub max_frame_len : ℕ
max_frame_len = 64 * 1024

-- `memcpy` of a `uint32_t` and `ntohl`; of a `uint16_t` and `ntohs`.
unfoldable pub read_u32 : List ℕ → ℕ
read_u32 xs = ((get_or xs 0 0 * 256 + get_or xs 1 0) * 256 + get_or xs 2 0) * 256 + get_or xs 3 0

unfoldable pub read_u16 : List ℕ → ℕ
read_u16 xs = get_or xs 0 0 * 256 + get_or xs 1 0

-- The bytes of `htonl(n)` and of `htons(n)`; the arguments are cut to their width.
unfoldable pub u32_bytes : ℕ → List ℕ
u32_bytes n = (n / 2 ^ 24 % 256) ∷ (n / 2 ^ 16 % 256) ∷ (n / 2 ^ 8 % 256) ∷ (n % 256) ∷ []

unfoldable pub u16_bytes : ℕ → List ℕ
u16_bytes n = (n / 2 ^ 8 % 256) ∷ (n % 256) ∷ []

unfoldable pub encode : ℕ → List ℕ → List ℕ
encode msg_id body = u32_bytes (id_len + length body) ++ (u16_bytes msg_id ++ body)

-- What `onMessage` does to the outside, in order: the callback with an id and a body, the shutdown of
-- the connection, the loss of what is left in the buffer.
pub data Event : Type 0 where
  message : ℕ → List ℕ → Event
  shutdown discarded : Event

-- One round of the loop. `aborted` is a failed assertion of `Buffer::retrieve`.
pub data Round : Type 0 where
  halted : List Event → Buffer → Round
  delivered : Event → Buffer → Round
  aborted : Round

abbrev pub after_retrieve : Event → Option Buffer → Round
after_retrieve e none = aborted
after_retrieve e (some b) = delivered e b

abbrev pub reject : Bool → List Event
reject true = shutdown ∷ discarded ∷ []
reject false = discarded ∷ []

-- `has_conn` is the test `if (conn)`.
unfoldable pub round : Bool → Buffer → Round
round has_conn b =
    let len = read_u32 (peek b 0 4) in
    let msg_id = read_u16 (peek b header_len 2) in
    let body = peek b (header_len + id_len) (len - id_len) in
    if leb header_len (readable_bytes b)
    then (if ltb len id_len || ltb max_frame_len len
        then halted (reject has_conn) (retrieve_all b)
        else if ltb (readable_bytes b) (header_len + len)
        then halted [] b
        else after_retrieve (message msg_id body) (retrieve b (header_len + len)))
    else halted [] b

abbrev pub cons_event : Event → Option (List Event × Buffer) → Option (List Event × Buffer)
cons_event e none = none
cons_event e (some (es, b)) = some (e ∷ es, b)

-- `none` where the fuel runs out or an assertion fails.
unfoldable pub on_message_fuel : ℕ → Bool → Buffer → Option (List Event × Buffer)
on_message_fuel zero has_conn b = none
on_message_fuel (suc fuel) has_conn b = elim (round has_conn b) [
  | halted es r ↦ some (es, r)
  | delivered e r ↦ cons_event e (on_message_fuel fuel has_conn r)
  | aborted ↦ none
]

-- Each round but the last takes bytes off the buffer.
unfoldable pub on_message : Bool → Buffer → Option (List Event × Buffer)
on_message has_conn b = on_message_fuel (suc (readable_bytes b)) has_conn b

abbrev pub join_events : List Event → Option (List Event × Buffer) → Option (List Event × Buffer)
join_events es none = none
join_events es (some (fs, b)) = some (es ++ fs, b)

abbrev pub then_receive :
    Option (List Event × Buffer)
    → (Buffer → Option (List Event × Buffer))
    → Option (List Event × Buffer)
then_receive none k = none
then_receive (some (es, b)) k = join_events es (k b)

-- A connection that reads one chunk after the other, with the codec as its message callback.
unfoldable pub receive : Bool → List (List ℕ) → Buffer → Option (List Event × Buffer)
receive has_conn [] b = some ([], b)
receive has_conn (c ∷ cs) b =
    then_receive (on_message has_conn (read_fd b (got c)).0) (receive has_conn cs)
