-- ===== src/Buffer/Valid.antt =====
-- net/Buffer.cc: each operation keeps the layout, and holds the bytes of a queue.
use my_game_server.Base.{
  ℕ, zero, suc, ◌+◌, ◌-◌, ◌≤◌, ◌<◌, ltb, leb, true, false, if◌then◌else◌, List, [], ◌∷◌, ◌++◌,
  length, take, replicate, get_or, ◌≡◌, refl, arith, length-append, length-take, length-replicate,
  inl, inr, Bool-cases, take-all,
}
use my_game_server.Buffer.{
  Buffer, cheap_prepend, new, readable_bytes, writable_bytes, resize, ensure_writable,
}
use my_game_server.Buffer.Copy.{
  slice, move_down, length-slice, slice-ext, length-move_down, slice-move_down,
}

-- The three regions lie in order behind the reserved bytes, so that no index difference wraps.
pub record IsValid (b : Buffer) : Type 0 where
  pub reserved : cheap_prepend ≤ b.reader
  pub ordered : b.reader ≤ b.writer
  pub inside : b.writer ≤ length b.bytes

-- The readable bytes: what the buffer holds.
abbrev pub contents : Buffer → List ℕ
contents b = slice b.bytes b.reader (b.writer - b.reader)

pub length-contents : (b : Buffer) → length (contents b) ≡ readable_bytes b
length-contents b = length-slice b.bytes b.reader (b.writer - b.reader)

-- A new buffer is valid and empty.
pub new-IsValid : IsValid new × (contents new ≡ [])
unfolding new slice
new-IsValid = (
  record {
    reserved = omega arith;
    ordered = omega arith;
    inside = omega (arith, length-replicate {A = ℕ} 1032 0);
  },
  refl,
)

length-resize : (bs : List ℕ) (n : ℕ) → length bs ≤ n → length (resize bs n) ≡ n
unfolding resize
length-resize bs n h = omega (
  arith,
  length-append (take n bs) (replicate (n - length bs) 0),
  length-take n bs,
  length-replicate {A = ℕ} (n - length bs) 0,
)

get_or-append : (xs ys : List ℕ) (j : ℕ) → j < length xs → get_or (xs ++ ys) j 0 ≡ get_or xs j 0
get_or-append [] ys j h = absurd (omega arith)
get_or-append (x ∷ xs) ys zero h = refl
get_or-append (x ∷ xs) ys (suc j) h = get_or-append xs ys j (omega arith)

get_or-resize :
    (bs : List ℕ) (n j : ℕ)
    → length bs ≤ n
    → j < length bs
    → get_or (resize bs n) j 0 ≡ get_or bs j 0
unfolding resize
get_or-resize bs n j h k = rw (take-all n bs h) (get_or-append bs _ j k)

module _ (b : Buffer) (len : ℕ) (v : IsValid b) where
  abbrev Roomy : Buffer → Type 0
  Roomy r =
      IsValid r
      × (contents r ≡ contents b)
      × (len ≤ writable_bytes r)
      × (length r.bytes ≡ (
          if leb (len + readable_bytes b + cheap_prepend) (length b.bytes)
          then length b.bytes
          else b.writer + len))

  unchanged : leb len (writable_bytes b) ≡ true → Roomy b
  unchanged fits = (v, refl, ground arith, ground arith)

  grown :
      leb len (writable_bytes b) ≡ false
      → ltb (writable_bytes b + b.reader - cheap_prepend) len ≡ true
      → Roomy (record b { bytes = resize b.bytes (b.writer + len) })
  grown tight grow =
      let e = length-resize b.bytes (b.writer + len) (ground arith) in
      (
        record { reserved = v.reserved; ordered = v.ordered; inside = omega (arith, e) },
        slice-ext (resize b.bytes (b.writer + len)) b.bytes b.reader (b.writer - b.reader)
            (λ j lo hi. get_or-resize b.bytes (b.writer + len) j (ground arith) (omega arith)),
        omega (arith, e),
        ground (arith, e),
      )

  moved :
      ltb (writable_bytes b + b.reader - cheap_prepend) len ≡ false
      → Roomy (record {
        bytes = move_down b.bytes b.reader cheap_prepend (readable_bytes b);
        reader = cheap_prepend;
        writer = cheap_prepend + readable_bytes b;
      })
  moved move =
      let e = length-move_down b.bytes b.reader cheap_prepend (readable_bytes b) in
      let same : 8 + readable_bytes b - 8 ≡ readable_bytes b = omega arith in
      (
        record { reserved = omega arith; ordered = omega arith; inside = omega (arith, e) },
        rw same (
            slice-move_down b.bytes b.reader cheap_prepend (readable_bytes b) v.reserved
              (omega arith)),
        ground (arith, e),
        ground (arith, e),
      )

  -- After `ensureWritable(len)` the buffer has room for `len` bytes and holds what it held. It grows
  -- only if the read space in front and the space behind do not suffice together.
  pub ensure_writable_lem : Roomy (ensure_writable b len)
  unfolding ensure_writable
  ensure_writable_lem = elim (Bool-cases (leb len (writable_bytes b))) [
    | inl fits ↦ rw fits (unchanged fits)
    | inr tight ↦ elim (Bool-cases (ltb (writable_bytes b + b.reader - cheap_prepend) len)) [
      | inl grow ↦ rw (tight, grow) (grown tight grow)
      | inr move ↦ rw (tight, move) (moved move)
    ]
  ]
