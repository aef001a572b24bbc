-- ===== src/Buffer.antt =====
-- net/Buffer.h and net/Buffer.cc: the byte buffer of a connection, laid out as
-- | prependable | readable | writable |. A byte is any number: the buffer only moves bytes. An index
-- stays below the vector's largest size, so sums of `size_t` do not wrap; that no difference does is
-- part of `Buffer.Valid`.
pub mod Copy
pub mod Valid
pub mod Bytes
pub mod Queue
mod Tests
use my_game_server.Base.{
  ℕ, zero, suc, ◌+◌, ◌-◌, ltb, leb, if◌then◌else◌, List, [], ◌∷◌, ◌++◌, Option, none, some, length,
  take, drop, replicate,
}
use Copy.{copy, move_down, slice}

pub record Buffer : Type 0 where
  pub bytes : List ℕ
  pub reader : ℕ
  pub writer : ℕ

abbrev pub cheap_prepend : ℕ
cheap_prepend = 8

abbrev pub initial_size : ℕ
initial_size = 1024

unfoldable pub new : Buffer
new = record {
  bytes = replicate (cheap_prepend + initial_size) 0;
  reader = cheap_prepend;
  writer = cheap_prepend;
}

abbrev pub readable_bytes : Buffer → ℕ
readable_bytes b = b.writer - b.reader

abbrev pub writable_bytes : Buffer → ℕ
writable_bytes b = length b.bytes - b.writer

-- The `n` bytes that a client reads from `peek() + i`.
abbrev pub peek : Buffer → ℕ → ℕ → List ℕ
peek b i n = slice b.bytes (b.reader + i) n

unfoldable pub retrieve_all : Buffer → Buffer
retrieve_all b = record b { reader = cheap_prepend; writer = cheap_prepend }

-- `none` where the assertion fails.
unfoldable pub retrieve : Buffer → ℕ → Option Buffer
unfolding retrieve_all
retrieve b len =
    if leb len (readable_bytes b)
    then some (
        if ltb len (readable_bytes b) then record b { reader = b.reader + len } else retrieve_all b)
    else none

unfoldable pub retrieve_all_as_string : Buffer → List ℕ × Buffer
unfolding retrieve_all
retrieve_all_as_string b = (peek b 0 (readable_bytes b), retrieve_all b)

-- `std::vector::resize`: new entries are zero.
unfoldable pub resize : List ℕ → ℕ → List ℕ
resize bs n = take n bs ++ replicate (n - length bs) 0

unfoldable pub ensure_writable : Buffer → ℕ → Buffer
ensure_writable b len =
    if leb len (writable_bytes b)
    then b
    else if ltb (writable_bytes b + b.reader - cheap_prepend) len
    then record b { bytes = resize b.bytes (b.writer + len) }
    else record {
      bytes = move_down b.bytes b.reader cheap_prepend (readable_bytes b);
      reader = cheap_prepend;
      writer = cheap_prepend + readable_bytes b;
    }

unfoldable pub append : Buffer → List ℕ → Buffer
append b xs =
    let r = ensure_writable b (length xs) in
    record r { bytes = copy r.bytes r.writer xs; writer = r.writer + length xs }

-- What `readv` reports: the bytes that it read, or an error.
pub data ReadV : Type 0 where
  got : List ℕ → ReadV
  failed : ℕ → ReadV

-- The first part of what was read lands behind `writer`, the rest in `extrabuf`.
unfoldable pub read_fd : Buffer → ReadV → Buffer × ReadV
read_fd b (failed errno) = (b, failed errno)
read_fd b (got xs) =
    let written = copy b.bytes b.writer (take (writable_bytes b) xs) in
    if leb (length xs) (writable_bytes b)
    then (record b { bytes = written; writer = b.writer + length xs }, got xs)
    else (
      append (record b { bytes = written; writer = length b.bytes }) (drop (writable_bytes b) xs),
      got xs,
    )

-- What the owner of a buffer does with it.
pub data Op : Type 0 where
  appends : List ℕ → Op
  reads : ReadV → Op
  retrieves : ℕ → Op
  takes_all : Op

abbrev pub then_rest : Option Buffer → (Buffer → Option Buffer) → Option Buffer
then_rest none k = none
then_rest (some b) k = k b

unfoldable pub step : Op → Buffer → Option Buffer
step (appends xs) b = some (append b xs)
step (reads r) b = some (read_fd b r).0
step (retrieves n) b = retrieve b n
step takes_all b = some (retrieve_all_as_string b).1

unfoldable pub run : List Op → Buffer → Option Buffer
run [] b = some b
run (o ∷ os) b = then_rest (step o b) (run os)
