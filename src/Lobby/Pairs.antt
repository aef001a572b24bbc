-- ===== src/Lobby/Pairs.antt =====
-- game/GameServer.cc: `tryMatch` puts the pair that it takes off the queue into a room.
use my_game_server.Base.{
  ℕ, ◌+◌, ◌==◌, if◌then◌else◌, true, false, Bool, [], ◌∷◌, ◌++◌, Option, none, some, ◌≡◌, refl, sym,
  ap, subst, ◌∙◌, arith, inl, inr, Bool-cases, ==→eq, if_false,
}
use my_game_server.Base.Map.{Map, lookup, insert, lookup-insert, lookup-erase}
use my_game_server.MatchQueue.{MatchQueue}
use my_game_server.Lobby.Defs.{
  Stage, in_lobby, matching, in_room, Session, Lobby, State, get_next_loop, room_task, start,
}
use my_game_server.MatchQueue.{pop_pair}
use my_game_server.MatchQueue.Members.{Taken, pop_pair-Popped}
use my_game_server.TimerWheel
use my_game_server.TimerWheel.{Wheel}
use my_game_server.Lobby.Defs.{Timer}
use my_game_server.Lobby.{
  cancel_found, cancel_match_timer, enter_room, make_room, match_found, match_popped, try_match,
}
use my_game_server.Lobby.Inv.{is_matching, is_waiting, IsSound}
use my_game_server.Lobby.Matching.{waiting_session}

-- What the cancellation of the match timers leaves alone.
record SameRooms (l l' : Lobby) : Type 0 where
  rooms : l'.rooms ≡ l.rooms
  pool : l'.pool ≡ l.pool
  out : l'.out ≡ l.out
  sessions : l'.sessions ≡ l.sessions
  queue : l'.match_queue ≡ l.match_queue
  next_room : l'.next_room_id ≡ l.next_room_id

cancel-SameRooms :
    (pid : ℕ) (o : Option ℕ) (l : Lobby) (st : State)
    → SameRooms l st.1
    → SameRooms l (cancel_found pid o st).1
cancel-SameRooms pid none l st v = v
cancel-SameRooms pid (some t) l (w, k) v = record {
  rooms = v.rooms;
  pool = v.pool;
  out = v.out;
  sessions = v.sessions;
  queue = v.queue;
  next_room = v.next_room;
}

cancel_match_timer-SameRooms :
    (pid : ℕ) (l : Lobby) (st : State)
    → SameRooms l st.1
    → SameRooms l (cancel_match_timer pid st).1
unfolding cancel_match_timer
cancel_match_timer-SameRooms pid l (w, k) v =
    cancel-SameRooms pid (lookup pid k.match_timer) l (w, k) v

abbrev pub cancel_at : Option ℕ → Wheel Timer → Wheel Timer
cancel_at none w = w
cancel_at (some timer) w = TimerWheel.cancel w timer

-- What the cancellation does to the match timers: the wheel cancels the player's, if there is one, and the
-- lobby forgets it.
wheel-cancel_match_timer :
    (pid : ℕ) (w : Wheel Timer) (l : Lobby)
    → (cancel_match_timer pid (w, l)).0 ≡ cancel_at (lookup pid l.match_timer) w
unfolding cancel_match_timer
wheel-cancel_match_timer pid w l = at_found (lookup pid l.match_timer)
  where
    at_found : (o : Option ℕ) → (cancel_found pid o (w, l)).0 ≡ cancel_at o w
    at_found none = refl
    at_found (some timer) = refl

lookup-cancel_match_timer :
    (pid j : ℕ) (w : Wheel Timer) (l : Lobby)
    → lookup j (cancel_match_timer pid (w, l)).1.match_timer
      ≡ (if pid == j then none else lookup j l.match_timer)
unfolding cancel_match_timer
lookup-cancel_match_timer pid j w l = at_found (lookup pid l.match_timer) refl
  where
    at_found :
        (o : Option ℕ)
        → lookup pid l.match_timer ≡ o
        → lookup j (cancel_found pid o (w, l)).1.match_timer
          ≡ (if pid == j then none else lookup j l.match_timer)
    at_found none e = elim (Bool-cases (pid == j)) [
      | inl same ↦ rw same (subst (λ i. lookup i l.match_timer ≡ none) (==→eq pid j same) e)
      | inr other ↦ rw other refl
    ]
    at_found (some timer) e = lookup-erase pid j l.match_timer

matching_of : (g : Stage) → is_matching g ≡ true → g ≡ matching
matching_of in_lobby e = cc
matching_of matching e = refl
matching_of in_room e = cc

abbrev pub seated : Session → ℕ → Session
seated s room = record s { stage = in_room; room_id = room }

-- What becomes of a pair that is taken off the queue: both have sessions that were waiting, and are in the
-- room with the next id now; that room is in the table with the loop whose turn it is, and is started there
-- with both players and their connections; and the match timers of both are canceled and forgotten.
abbrev pub Paired : State → ℕ → ℕ → MatchQueue → State → Type 0
Paired (w, l) a b q' (w', l') =
    (sa : Session) × (sb : Session) × (lookup a l.sessions ≡ some sa)
    × (lookup b l.sessions ≡ some sb)
    × (sa.stage ≡ matching)
    × (sb.stage ≡ matching)
    × (lookup a l'.sessions ≡ some (seated sa l.next_room_id))
    × (lookup b l'.sessions ≡ some (seated sb l.next_room_id))
    × (l'.match_queue ≡ q')
    × (l'.next_room_id ≡ l.next_room_id + 1)
    × (l'.rooms ≡ insert l.next_room_id (get_next_loop l.pool).0 l.rooms)
    × (l'.pool ≡ (get_next_loop l.pool).1)
    × (l'.out
        ≡ l.out
          ++ (room_task l.next_room_id (start sa.player_id sa.conn sb.player_id sb.conn) ∷ []))
    × (lookup a l'.match_timer ≡ none)
    × (lookup b l'.match_timer ≡ none)
    × (w' ≡ cancel_at (lookup b l.match_timer) (cancel_at (lookup a l.match_timer) w))

seat_both :
    (m : Map Session) (a b : ℕ) (ra rb : Session)
    → (a == b) ≡ false
    → (lookup a (insert b rb (insert a ra m)) ≡ some ra)
      × (lookup b (insert b rb (insert a ra m)) ≡ some rb)
seat_both m a b ra rb apart = (
  ground (arith, lookup-insert b a rb (insert a ra m), lookup-insert a a ra m),
  ground (arith, lookup-insert b b rb (insert a ra m)),
)

-- The timers after both were canceled.
timers_gone :
    (w : Wheel Timer) (l : Lobby) (a b : ℕ)
    → (a == b) ≡ false
    → let st = cancel_match_timer b (cancel_match_timer a (w, l)) in
      (lookup a st.1.match_timer ≡ none)
      × (lookup b st.1.match_timer ≡ none)
      × (st.0 ≡ cancel_at (lookup b l.match_timer) (cancel_at (lookup a l.match_timer) w))
timers_gone w l a b apart =
    let st1 = cancel_match_timer a (w, l) in
    let first = λ (j : ℕ). lookup-cancel_match_timer a j w l in
    let second = λ (j : ℕ). lookup-cancel_match_timer b j st1.0 st1.1 in
    (
      ground (arith, first a, second a),
      ground (arith, second b),
      wheel-cancel_match_timer b st1.0 st1.1
          ∙ (ap (λ o. cancel_at o st1.0) (first b ∙ if_false _ _ apart)
              ∙ ap (cancel_at (lookup b l.match_timer)) (wheel-cancel_match_timer a w l)),
    )

taken-Paired :
    (w : Wheel Timer) (l : Lobby) (a b : ℕ) (q' : MatchQueue)
    → IsSound l
    → pop_pair l.match_queue ≡ some (some (a, b), q')
    → Taken l.match_queue a b q'
    → Paired (w, l) a b q' (try_match (w, l))
unfolding try_match make_room enter_room
taken-Paired w l a b q' v e (valid, wa, wb, apart, left) =
    let (sa, fa) = waiting_session l a v wa in
    let (sb, fb) = waiting_session l b v wb in
    let l1 : Lobby = record l { match_queue = q' } in
    let start_st : State = (w, l1) in
    let st = cancel_match_timer b (cancel_match_timer a start_st) in
    let k = cancel_match_timer-SameRooms b l1 _ (
      cancel_match_timer-SameRooms a l1 start_st (record {
        rooms = refl;
        pool = refl;
        out = refl;
        sessions = refl;
        queue = refl;
        next_room = refl;
      })) in
    let r : try_match (w, l) ≡ make_room a b sa sb st =
      ap (λ o. match_popped o (w, l)) e
      ∙ (ap (λ o. match_found a b o (lookup b l.sessions) (w, l1)) fa
          ∙ ap (λ o. match_found a b (some sa) o (w, l1)) fb) in
    let room = st.1.next_room_id in
    let (ha, hb) = seat_both st.1.sessions a b (seated sa room) (seated sb room) apart in
    let (ta, tb, tw) = timers_gone w l1 a b apart in
    (
      sa,
      sb,
      fa,
      fb,
      matching_of sa.stage (sym (ap is_waiting fa) ∙ (sym (v.queued a) ∙ wa)),
      matching_of sb.stage (sym (ap is_waiting fb) ∙ (sym (v.queued b) ∙ wb)),
      ap (λ s. lookup a s.1.sessions) r ∙ (ha ∙ ap (λ i. some (seated sa i)) k.next_room),
      ap (λ s. lookup b s.1.sessions) r ∙ (hb ∙ ap (λ i. some (seated sb i)) k.next_room),
      ap (λ s. s.1.match_queue) r ∙ k.queue,
      ap (λ s. s.1.next_room_id) r ∙ ap (λ n. n + 1) k.next_room,
      ap (λ s. s.1.rooms) r ∙ λ i. insert (k.next_room i) (get_next_loop (k.pool i)).0 (k.rooms i),
      ap (λ s. s.1.pool) r ∙ ap (λ p. (get_next_loop p).1) k.pool,
      ap (λ s. s.1.out) r ∙ λ i.
          k.out i
          ++ (room_task (k.next_room i) (start sa.player_id sa.conn sb.player_id sb.conn) ∷ []),
      ap (λ s. lookup a s.1.match_timer) r ∙ ta,
      ap (λ s. lookup b s.1.match_timer) r ∙ tb,
      ap (λ s. s.0) r ∙ tw,
    )

abbrev popped : (ℕ × ℕ) × MatchQueue → Option (Option (ℕ × ℕ) × MatchQueue)
popped (p, q) = some (some p, q)

abbrev pair_or : (ℕ × ℕ) × MatchQueue → Option (Option (ℕ × ℕ) × MatchQueue) → (ℕ × ℕ) × MatchQueue
pair_or x none = x
pair_or x (some (none, q)) = x
pair_or x (some (some p, q)) = (p, q)

same_pair : (x y : (ℕ × ℕ) × MatchQueue) → popped x ≡ popped y → x ≡ y
same_pair x y e = ap (pair_or x) e

abbrev is_pair : Option (Option (ℕ × ℕ) × MatchQueue) → Bool
is_pair none = false
is_pair (some (none, q)) = false
is_pair (some (some p, q)) = true

-- In a sound lobby, a pair that `popPair` takes off the queue is never dropped: both players have sessions
-- in matching; `tryMatch` cancels and forgets their match timers, puts both into the room with the next
-- id, enters that room into the table with the game loop whose turn it is, and starts it with both
-- players and their connections.
pub try_match-Paired :
    (st : State) (a b : ℕ) (q' : MatchQueue)
    → IsSound st.1
    → pop_pair st.1.match_queue ≡ some (some (a, b), q')
    → Paired st a b q' (try_match st)
try_match-Paired (w, l) a b q' v e = elim (pop_pair-Popped l.match_queue v.valid) [
  | inl (q2, f, k) ↦ let g : true ≡ false = ap is_pair (sym e ∙ f) in cc
  | inr (c, d, q2, f, taken) ↦
      let x : (ℕ × ℕ) × MatchQueue = ((c, d), q2) in
      let y : (ℕ × ℕ) × MatchQueue = ((a, b), q') in
      let h : x ≡ y = same_pair x y (sym f ∙ e) in
      subst (λ x. Paired (w, l) x.0.0 x.0.1 x.1 (try_match (w, l))) h
        (taken-Paired w l c d q2 v f taken)
]
