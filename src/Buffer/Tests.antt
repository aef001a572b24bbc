-- ===== src/Buffer/Tests.antt =====
-- net/Buffer.cc at concrete buffers.
use my_game_server.Base.{[], ◌∷◌, ◌++◌, ◌≡◌, refl, ◌≤◌, ◌+◌, leb, if◌then◌else◌, length, arith}
use my_game_server.Buffer.{
  Buffer, new, readable_bytes, writable_bytes, cheap_prepend, append, read_fd, ensure_writable, got,
  failed, appends, reads, retrieves, run,
}
use my_game_server.Buffer.Copy.{copy, move_down}
use my_game_server.Buffer.Valid.{IsValid, contents, ensure_writable_lem}
use my_game_server.Buffer.Bytes.{append_lem, read_fd_lem}
use my_game_server.Buffer.Queue.{Holds, spec, run-new-Holds}

-- Bytes 21, 22 and 23 after two were read; one more byte fits behind them.
abbrev small : Buffer
small = record {
  bytes = 0 ∷ 0 ∷ 0 ∷ 0 ∷ 0 ∷ 0 ∷ 0 ∷ 0 ∷ 19 ∷ 20 ∷ 21 ∷ 22 ∷ 23 ∷ 0 ∷ [];
  reader = 10;
  writer = 13;
}

small-IsValid : IsValid small
small-IsValid = omega arith

-- Two bytes make the buffer move its contents to the front, over themselves; four make it grow.
move_runs : append small (31 ∷ 32 ∷ []) ≡ record {
  bytes = 0 ∷ 0 ∷ 0 ∷ 0 ∷ 0 ∷ 0 ∷ 0 ∷ 0 ∷ 21 ∷ 22 ∷ 23 ∷ 31 ∷ 32 ∷ 0 ∷ [];
  reader = 8;
  writer = 13;
}
unfolding append ensure_writable copy move_down
move_runs = refl

append_runs :
    IsValid (append small (31 ∷ 32 ∷ []))
    × (contents (append small (31 ∷ 32 ∷ [])) ≡ contents small ++ (31 ∷ 32 ∷ []))
append_runs = append_lem small (31 ∷ 32 ∷ []) small-IsValid

ensure_writable_runs :
    let r = ensure_writable small 4 in
    IsValid r
    × (contents r ≡ contents small)
    × (4 ≤ writable_bytes r)
    × (length r.bytes ≡ (
        if leb (4 + readable_bytes small + cheap_prepend) (length small.bytes)
        then length small.bytes
        else small.writer + 4))
ensure_writable_runs = ensure_writable_lem small 4 small-IsValid

read_fd_runs :
    IsValid (read_fd small (got (31 ∷ 32 ∷ []))).0
    × (contents (read_fd small (got (31 ∷ 32 ∷ []))).0 ≡ contents small ++ (31 ∷ 32 ∷ []))
    × ((read_fd small (got (31 ∷ 32 ∷ []))).1 ≡ got (31 ∷ 32 ∷ []))
    × (read_fd small (failed 11) ≡ (small, failed 11))
read_fd_runs = read_fd_lem small (31 ∷ 32 ∷ []) 11 small-IsValid

run-new-Holds_example :
    Holds
      (run (appends (1 ∷ 2 ∷ 3 ∷ []) ∷ retrieves 2 ∷ reads (got (4 ∷ [])) ∷ []) new)
      (spec (appends (1 ∷ 2 ∷ 3 ∷ []) ∷ retrieves 2 ∷ reads (got (4 ∷ [])) ∷ []) [])
run-new-Holds_example =
    run-new-Holds (appends (1 ∷ 2 ∷ 3 ∷ []) ∷ retrieves 2 ∷ reads (got (4 ∷ [])) ∷ [])
