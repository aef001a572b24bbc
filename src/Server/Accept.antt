-- ===== src/Server/Accept.antt =====
-- net/Acceptor.cc: the loop over `accept`, with `newConnection` as its callback.
use my_game_server.Base.{
  ℕ, if◌then◌else◌, Bool, true, false, List, [], ◌∷◌, length, ◌≡◌, refl, ap, replicate,
}
use my_game_server.Server.{Server, new_connection, run, accepts}

-- What a call of `accept` finds in the queue of the kernel: a descriptor, or an error. EAGAIN is reported
-- at the end of the list.
pub data Accepted : Type 0 where
  conn : ℕ → Accepted
  exhausted aborted : Accepted

-- The server, the descriptors that were closed, and what stays in the kernel's queue.
pub record Acceptance : Type 0 where
  pub server : Server
  pub shut : List ℕ
  pub queue : List Accepted

-- `handleRead`; `has_cb` is the test `if (cb_)`. Whatever the error, the loop ends.
unfoldable pub handle_read : Bool → List Accepted → Server → Acceptance
unfolding new_connection
handle_read has_cb [] s = record { server = s; shut = []; queue = [] }
handle_read has_cb (conn fd ∷ q) s =
    let a = handle_read has_cb q (if has_cb then new_connection s else s) in
    if has_cb then a else record a { shut = fd ∷ a.shut }
handle_read has_cb (exhausted ∷ q) s = record { server = s; shut = []; queue = q }
handle_read has_cb (aborted ∷ q) s = record { server = s; shut = []; queue = q }

-- The descriptors in front of the first error.
abbrev pub ready : List Accepted → List ℕ
ready [] = []
ready (conn fd ∷ q) = fd ∷ ready q
ready (exhausted ∷ q) = []
ready (aborted ∷ q) = []

abbrev pub behind : List Accepted → List Accepted
behind [] = []
behind (conn fd ∷ q) = behind q
behind (exhausted ∷ q) = q
behind (aborted ∷ q) = q

-- One event of the listening socket: each descriptor in front of the first error becomes a connection, or
-- is closed if there is no callback, none is lost or used twice, and what is queued behind an error stays
-- there, for an edge that only a further client causes.
pub handle_read-serves :
    (has_cb : Bool) (q : List Accepted) (s : Server)
    → let a = handle_read has_cb q s in
      (a.server ≡ (if has_cb then run (replicate (length (ready q)) accepts) s else s))
      × (a.shut ≡ (if has_cb then [] else ready q))
      × (a.queue ≡ behind q)
unfolding handle_read run
handle_read-serves true [] s = (refl, refl, refl)
handle_read-serves false [] s = (refl, refl, refl)
handle_read-serves true (conn fd ∷ q) s = handle_read-serves true q (new_connection s)
handle_read-serves false (conn fd ∷ q) s =
    let (server, shut, queue) = handle_read-serves false q s in (server, ap (◌∷◌ fd) shut, queue)
handle_read-serves true (exhausted ∷ q) s = (refl, refl, refl)
handle_read-serves false (exhausted ∷ q) s = (refl, refl, refl)
handle_read-serves true (aborted ∷ q) s = (refl, refl, refl)
handle_read-serves false (aborted ∷ q) s = (refl, refl, refl)
