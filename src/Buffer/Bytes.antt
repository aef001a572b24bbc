-- ===== src/Buffer/Bytes.antt =====
-- net/Buffer.cc: the operations against a queue of bytes.
use my_game_server.Base.{
  ℕ, zero, suc, ◌+◌, ◌-◌, ◌≤◌, ◌<◌, ltb, leb, List, [], ◌∷◌, ◌++◌, none, some, length, take, drop,
  get_or, ◌≡◌, refl, sym, ap, ◌∙◌, arith, length-take, inl, inr, Bool-cases, append_assoc, take-all,
  drop-all, take-append-drop, leb→le, leb→lt, ltb→lt, ltb→le, le→leb, lt→leb,
}
use my_game_server.Buffer.{
  Buffer, readable_bytes, writable_bytes, retrieve_all, retrieve, retrieve_all_as_string,
  ensure_writable, append, got, failed, read_fd, peek,
}
use my_game_server.Buffer.Copy.{
  slice, copy, slice-append, slice-ext, length-copy, get_or-copy_below, slice-copy,
}
use my_game_server.Buffer.Valid.{IsValid, contents, length-contents, ensure_writable_lem}

-- Bytes copied behind `writer`, where there is room for them, join the contents.
copy_behind :
    (b : Buffer) (xs : List ℕ)
    → IsValid b
    → length xs ≤ writable_bytes b
    → let r : Buffer = record b {
      bytes = copy b.bytes b.writer xs;
      writer = b.writer + length xs;
    } in
      IsValid r × (contents r ≡ contents b ++ xs)
copy_behind b xs v h =
    let e = length-copy b.bytes b.writer xs in
    let m = b.writer - b.reader in
    let split : b.writer + length xs - b.reader ≡ m + length xs = omega arith in
    let at : b.reader + m ≡ b.writer = omega arith in
    let room : b.writer + length xs ≤ length b.bytes = omega arith in
    (
      record { reserved = v.reserved; ordered = omega arith; inside = omega (arith, e) },
      rw (
        split,
        slice-append (copy b.bytes b.writer xs) b.reader m (length xs),
        at,
        slice-copy b.bytes b.writer xs room,
        slice-ext (copy b.bytes b.writer xs) b.bytes b.reader m
            (λ j lo hi. get_or-copy_below b.bytes b.writer j xs (omega arith)),
      ),
    )

-- `append` adds the bytes at the end, whether it has to make room, to move or to grow.
pub append_lem :
    (b : Buffer) (xs : List ℕ)
    → IsValid b
    → IsValid (append b xs) × (contents (append b xs) ≡ contents b ++ xs)
unfolding append
append_lem b xs v =
    let (w, same, room, _) = ensure_writable_lem b (length xs) v in
    let (x, e) = copy_behind (ensure_writable b (length xs)) xs w room in
    (x, e ∙ ap (λ l. l ++ xs) same)

pub drop-slice :
    (bs : List ℕ) (i n m : ℕ) → n ≤ m → drop n (slice bs i m) ≡ slice bs (i + n) (m - n)
unfolding slice
drop-slice bs i zero m h = ground arith
drop-slice bs i (suc n) zero h = absurd (omega arith)
drop-slice bs i (suc n) (suc m) h =
    let e : suc i + n ≡ i + suc n = omega arith in
    let f : suc m - suc n ≡ m - n = omega arith in
    rw f (rw e at (drop-slice bs (suc i) n m (omega arith)))

take-slice : (bs : List ℕ) (i n m : ℕ) → n ≤ m → take n (slice bs i m) ≡ slice bs i n
unfolding slice
take-slice bs i zero m h = refl
take-slice bs i (suc n) zero h = absurd (omega arith)
take-slice bs i (suc n) (suc m) h =
    ap (◌∷◌ (get_or bs i 0)) (take-slice bs (suc i) n m (omega arith))

-- What a client reads through `peek` is a part of the contents.
pub peek_lem :
    (b : Buffer) (i n : ℕ) → i + n ≤ readable_bytes b → peek b i n ≡ take n (drop i (contents b))
peek_lem b i n h =
    rw (drop-slice b.bytes b.reader i (readable_bytes b) (omega arith))
      (sym (take-slice b.bytes (b.reader + i) n (readable_bytes b - i) (omega arith)))

pub retrieve_all_lem :
    (b : Buffer) → IsValid b → IsValid (retrieve_all b) × (contents (retrieve_all b) ≡ [])
unfolding retrieve_all slice
retrieve_all_lem b v =
    (record { reserved = omega arith; ordered = omega arith; inside = omega arith }, refl)

-- `retrieve(len)` takes `len` bytes off the front; its assertion fails exactly if there are fewer.
pub retrieve_lem :
    (b : Buffer) (len : ℕ)
    → IsValid b
    → ((len ≤ readable_bytes b)
        → (r : Buffer) × (retrieve b len ≡ some r)
          × IsValid r
          × (contents r ≡ drop len (contents b)))
      × ((readable_bytes b < len) → retrieve b len ≡ none)
unfolding retrieve
retrieve_lem b len v = (enough, λ h. rw (lt→leb len (readable_bytes b) h))
  where
    part :
        len < readable_bytes b
        → let r : Buffer = record b { reader = b.reader + len } in
          IsValid r × (contents r ≡ drop len (contents b))
    part h =
        let e : b.writer - b.reader - len ≡ b.writer - (b.reader + len) = omega arith in
        (
          record { reserved = omega arith; ordered = omega arith; inside = v.inside },
          sym (rw e at (drop-slice b.bytes b.reader len (readable_bytes b) (omega arith))),
        )

    enough :
        len ≤ readable_bytes b
        → (r : Buffer) × (retrieve b len ≡ some r)
          × IsValid r
          × (contents r ≡ drop len (contents b))
    enough h = elim (Bool-cases (ltb len (readable_bytes b))) [
      | inl less ↦
          let (w, c) = part (ltb→lt _ _ less) in
          (record b { reader = b.reader + len }, rw (le→leb len (readable_bytes b) h, less), w, c)
      | inr all ↦ (
        retrieve_all b,
        rw (le→leb len (readable_bytes b) h, all),
        (retrieve_all_lem b v).0,
        (retrieve_all_lem b v).1
            ∙ sym (drop-all len (contents b) (omega (arith, length-contents b, ltb→le _ _ all))),
      )
    ]

-- `retrieveAllAsString` hands over the contents and leaves nothing.
pub retrieve_all_as_string_lem :
    (b : Buffer)
    → IsValid b
    → let (s, r) = retrieve_all_as_string b in (s ≡ contents b) × IsValid r × (contents r ≡ [])
unfolding retrieve_all_as_string
retrieve_all_as_string_lem b v =
    let e : b.reader + 0 ≡ b.reader = omega arith in
    let (w, none_left) = retrieve_all_lem b v in
    (ap (λ i. slice b.bytes i (readable_bytes b)) e, w, none_left)

-- Every byte that `readv` read joins the contents in order, also where some overflowed into the
-- buffer on the stack; an error changes nothing. The caller gets what `readv` reported.
pub read_fd_lem :
    (b : Buffer) (xs : List ℕ) (errno : ℕ)
    → IsValid b
    → IsValid (read_fd b (got xs)).0
      × (contents (read_fd b (got xs)).0 ≡ contents b ++ xs)
      × ((read_fd b (got xs)).1 ≡ got xs)
      × (read_fd b (failed errno) ≡ (b, failed errno))
unfolding read_fd
read_fd_lem b xs errno v = elim (Bool-cases (leb (length xs) (writable_bytes b))) [
  | inl fits ↦
      let e = take-all (writable_bytes b) xs (leb→le _ _ fits) in
      let (w, c) = copy_behind b xs v (leb→le _ _ fits) in rw (fits, e) (w, c, refl, refl)
  | inr over ↦
      let w = writable_bytes b in
      let e : b.writer + length (take w xs) ≡ length b.bytes =
        omega (arith, length-take w xs, leb→lt _ _ over) in
      let (v1, c1) = full e in
      let (v2, c2) = append_lem _ (drop w xs) v1 in
      rw over (
        v2,
        c2
            ∙ ap (λ l. l ++ drop w xs) c1
            ∙ append_assoc (contents b) (take w xs) (drop w xs)
            ∙ ap (◌++◌ (contents b)) (take-append-drop w xs),
        refl,
        refl,
      )
]
  where
    full :
        b.writer + length (take (writable_bytes b) xs) ≡ length b.bytes
        → let r : Buffer = record b {
          bytes = copy b.bytes b.writer (take (writable_bytes b) xs);
          writer = length b.bytes;
        } in
          IsValid r × (contents r ≡ contents b ++ take (writable_bytes b) xs)
    full e = rw e at (
        copy_behind b (take (writable_bytes b) xs) v
          (omega (arith, length-take (writable_bytes b) xs)))
