-- ===== src/Poller/Poll.antt =====
-- net/EPollPoller.h and net/EPollPoller.cc, `poll`: what `epoll_wait` returns is an argument. The poller is
-- its array of events, of which the length counts. A channel is its number.
use my_game_server.Base.{
  ℕ, zero, suc, ◌+◌, ◌*◌, ◌^◌, ◌≤◌, ◌==◌, if◌then◌else◌, Bool, true, false, List, [], ◌∷◌, ◌++◌,
  length, take, drop, ◌≡◌, refl, ap, ◌∙◌, arith, take-append-drop, length-drop, length-take,
}
use my_game_server.Poller.{Revents}

pub data Waited : Type 0 where
  reports : List (ℕ × Revents) → Waited
  fails : Waited

abbrev pub init_event_list_size : ℕ
init_event_list_size = 16

-- The active channels with their `revents`, and the new length of the array.
unfoldable pub poll : Waited → ℕ → List (ℕ × Revents) × ℕ
poll fails size = ([], size)
poll (reports evs) size = (evs, if length evs == size then size * 2 else size)

-- Polls one after the other. `epoll_wait` is a parameter: from the length of the array and the channels
-- that are ready to those it reports and those it leaves for the next call.
unfoldable pub polls :
    (ℕ → List (ℕ × Revents) → List (ℕ × Revents) × List (ℕ × Revents))
    → ℕ
    → List (ℕ × Revents)
    → ℕ
    → List (ℕ × Revents)
unfolding poll
polls epoll_wait zero ready size = []
polls epoll_wait (suc k) ready size =
    let (reported, left) = epoll_wait size ready in
    let (active, size') = poll (reports reported) size in active ++ polls epoll_wait k left size'

doubled : ℕ → ℕ → ℕ
doubled zero size = size
doubled (suc k) size = doubled k (size * 2)

doubled_lem : (k size : ℕ) → doubled k size ≡ size * 2 ^ k
unfolding doubled
doubled_lem zero size = omega arith
doubled_lem (suc k) size = doubled_lem k (size * 2) ∙ grind arith

-- The kernel reports as many channels as the array can take, and goes on with the others at the next call.
module _ (epoll_wait : ℕ → List (ℕ × Revents) → List (ℕ × Revents) × List (ℕ × Revents))
    (round_robin : (size : ℕ) (ready : List (ℕ × Revents))
      → epoll_wait size ready ≡ (take size ready, drop size ready)) where
  polls-suc :
      (k : ℕ) (ready : List (ℕ × Revents)) (size : ℕ)
      → polls epoll_wait (suc k) ready size
        ≡ take size ready
          ++ polls epoll_wait k
              (drop size ready)
              (if length (take size ready) == size then size * 2 else size)
  unfolding polls poll
  polls-suc k ready size =
      ap (λ w. w.0 ++ polls epoll_wait k w.1 (if length w.0 == size then size * 2 else size))
        (round_robin size ready)

  -- The kernel has nothing to report.
  polls-none :
      (k size : ℕ) (ready : List (ℕ × Revents))
      → length ready ≡ 0
      → polls epoll_wait k ready size ≡ ready
  unfolding polls
  polls-none zero size [] e = refl
  polls-none zero size (r ∷ ready) e = absurd (omega (arith, e))
  polls-none (suc k) size ready e =
      polls-suc k ready size
      ∙ (ap (λ l. take size ready ++ l)
            (polls-none k _ (drop size ready) (omega (arith, e, length-drop size ready)))
          ∙ take-append-drop size ready)

  -- After a poll: either the array was full, so that it is twice as long, or nothing is left.
  polls-rest :
      (k : ℕ) (ready : List (ℕ × Revents)) (size : ℕ) (b : Bool)
      → (length (take size ready) == size) ≡ b
      → length ready + size ≤ doubled k (size * 2)
      → (length (drop size ready) + size * 2 ≤ doubled k (size * 2)
          → polls epoll_wait k (drop size ready) (size * 2) ≡ drop size ready)
      → polls epoll_wait k (drop size ready) (if b then size * 2 else size) ≡ drop size ready
  polls-rest k ready size true e h later =
      later (ground (arith, e, length-take size ready, length-drop size ready, h))
  polls-rest k ready size false e h later =
      polls-none k size (drop size ready)
        (ground (arith, e, length-take size ready, length-drop size ready))

  polls-doubled :
      (k : ℕ) (ready : List (ℕ × Revents)) (size : ℕ)
      → length ready + size ≤ doubled k size
      → polls epoll_wait k ready size ≡ ready
  unfolding polls doubled
  polls-doubled zero [] size h = refl
  polls-doubled zero (r ∷ ready) size h = absurd (omega arith)
  polls-doubled (suc k) ready size h =
      polls-suc k ready size
      ∙ (ap (λ l. take size ready ++ l)
            (polls-rest k ready size (length (take size ready) == size) refl h
              (polls-doubled k (drop size ready) (size * 2)))
          ∙ take-append-drop size ready)

  -- If each `epoll_wait` reports as many of the ready channels as the array can take, from the front, and
  -- leaves the others: however many channels are ready, a few polls report all of them, each once and in
  -- their order. `k` polls of a new poller are enough for 16 * (2 ^ k - 1) channels.
  pub polls-all :
      (k : ℕ) (ready : List (ℕ × Revents))
      → length ready + init_event_list_size ≤ init_event_list_size * 2 ^ k
      → polls epoll_wait k ready init_event_list_size ≡ ready
  polls-all k ready h = polls-doubled k ready 16 (omega (arith, doubled_lem k 16, h))
