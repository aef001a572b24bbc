-- ===== src/Buffer/Queue.antt =====
-- net/Buffer.cc: a buffer under any sequence of calls is a first-in first-out queue of bytes.
use my_game_server.Base.{
  ℕ, leb, if◌then◌else◌, List, [], ◌∷◌, ◌++◌, Option, none, some, length, drop, ◌≡◌, refl, subst,
  arith, leb→le, leb→lt, inl, inr, Bool-cases,
}
use my_game_server.Buffer.{
  Buffer, new, got, failed, Op, appends, reads, retrieves, takes_all, then_rest, step, run,
}
use my_game_server.Buffer.Valid.{IsValid, contents, length-contents, new-IsValid}
use my_game_server.Buffer.Bytes.{append_lem, retrieve_lem, retrieve_all_as_string_lem, read_fd_lem}

-- The specification: bytes join at the end and leave at the front, and no more leave than are there.
unfoldable pub spec_step : Op → List ℕ → Option (List ℕ)
spec_step (appends xs) q = some (q ++ xs)
spec_step (reads (got xs)) q = some (q ++ xs)
spec_step (reads (failed errno)) q = some q
spec_step (retrieves n) q = if leb n (length q) then some (drop n q) else none
spec_step takes_all q = some []

abbrev then_spec : Option (List ℕ) → (List ℕ → Option (List ℕ)) → Option (List ℕ)
then_spec none k = none
then_spec (some q) k = k q

unfoldable pub spec : List Op → List ℕ → Option (List ℕ)
spec [] q = some q
spec (o ∷ os) q = then_spec (spec_step o q) (spec os)

-- Both fail, or the buffer is valid and holds the queue.
pub data Holds : Option Buffer → Option (List ℕ) → Type 0 where
  fails : Holds none none
  holds : (b : Buffer) → {q : List ℕ} → IsValid b → contents b ≡ q → Holds (some b) (some q)

step-Holds : (o : Op) (b : Buffer) → IsValid b → Holds (step o b) (spec_step o (contents b))
unfolding step spec_step
step-Holds (appends xs) b v = let (w, e) = append_lem b xs v in holds _ w e
step-Holds (reads (got xs)) b v = let (w, e, _, _) = read_fd_lem b xs 0 v in holds _ w e
step-Holds (reads (failed errno)) b v =
    let (_, _, _, e) = read_fd_lem b [] errno v in rw e (holds b v refl)
step-Holds (retrieves n) b v = elim (Bool-cases (leb n (length (contents b)))) [
  | inl enough ↦
      let (r, e, w, c) =
        (retrieve_lem b n v).0 (omega (arith, length-contents b, leb→le _ _ enough)) in
      rw (e, enough) (holds r w c)
  | inr few ↦
      rw ((retrieve_lem b n v).1 (omega (arith, length-contents b, leb→lt _ _ few)), few) fails
]
step-Holds takes_all b v = let (_, w, e) = retrieve_all_as_string_lem b v in holds _ w e

then-Holds :
    (os : List Op)
    → ((b : Buffer) → IsValid b → Holds (run os b) (spec os (contents b)))
    → {r : Option Buffer} {q : Option (List ℕ)} → Holds r q
    → Holds (then_rest r (run os)) (then_spec q (spec os))
then-Holds os later fails = fails
then-Holds os later (holds c w e) = subst (λ q. Holds (run os c) (spec os q)) e (later c w)

run-Holds : (os : List Op) (b : Buffer) → IsValid b → Holds (run os b) (spec os (contents b))
unfolding run spec
run-Holds [] b v = holds b v refl
run-Holds (o ∷ os) b v = then-Holds os (run-Holds os) (step-Holds o b v)

-- A buffer under any sequence of calls fails, by the assertion of `retrieve`, exactly where the byte
-- queue would give out more bytes than it holds; otherwise it stays valid and holds that queue's bytes.
pub run-new-Holds : (os : List Op) → Holds (run os new) (spec os [])
run-new-Holds os =
    let (v, e) = new-IsValid in subst (λ q. Holds (run os new) (spec os q)) e (run-Holds os new v)
