-- ===== src/Bot/Socket.antt =====
-- examples/bot_client.cc: `recvN` and `recvFrame`. What the kernel gives is a script: each `recv` takes
-- the next entry.
use my_game_server.Base.{
  ℕ, zero, suc, ◌+◌, ◌-◌, ◌%◌, ◌^◌, min, ◌==◌, if◌then◌else◌, List, [], ◌∷◌, ◌++◌, Option, none,
  some, length, take, drop,
}
use my_game_server.Codec.{read_u32, read_u16}

-- `gives n`: up to `n + 1` bytes are there. `fails`: the 100 ms passed, an error, or the end.
pub data Recv : Type 0 where
  gives : ℕ → Recv
  fails : Recv

-- The bytes that the peer sent and that were not read, and what the calls of `recv` will meet.
pub record Socket : Type 0 where
  pub stream : List ℕ
  pub script : List Recv

-- `recvN`: `n` bytes are missing, `dst` was read so far. On a failure `dst` is lost.
unfoldable pub recv_n : List Recv → ℕ → List ℕ → List ℕ → Option (List ℕ) × Socket
recv_n script zero stream dst = (some dst, record { stream = stream; script = script })
recv_n [] (suc n) stream dst = (none, record { stream = stream; script = [] })
recv_n (fails ∷ script) (suc n) stream dst = (none, record { stream = stream; script = script })
recv_n (gives k ∷ script) (suc n) stream dst =
    let r = take (suc (min k n)) stream in
    let rest = recv_n script (suc n - length r) (drop (length r) stream) (dst ++ r) in
    if length r == 0 then (none, record { stream = stream; script = script }) else rest

abbrev pub recv_body : ℕ → Option (List ℕ) × Socket → Option (ℕ × List ℕ) × Socket
recv_body id (none, s) = (none, s)
recv_body id (some body, s) = (some (id, body), s)

abbrev pub recv_rest : Option (List ℕ) × Socket → Option (ℕ × List ℕ) × Socket
recv_rest (none, s) = (none, s)
recv_rest (some head, s) =
    let len = read_u32 (take 4 head) in
    let id = read_u16 (take 2 (drop 4 head)) in
    if len == 2
    then (some (id, []), s)
    else recv_body id (recv_n s.script ((len + 2 ^ 32 - 2) % 2 ^ 32) s.stream [])

-- `recvFrame`: the id and the body, where it returns true.
unfoldable pub recv_frame : Socket → Option (ℕ × List ℕ) × Socket
unfolding recv_n
recv_frame s = recv_rest (recv_n s.script 6 s.stream [])

-- No call fails.
abbrev pub Gives : Recv → Type 0
Gives (gives k) = Unit
Gives fails = ⊥
