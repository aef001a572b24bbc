-- ===== src/Lobby/Matching.antt =====
-- game/GameServer.cc: matching keeps the lobby sound, and loses no player on the way into a room.
use my_game_server.Base.{
  ℕ, ◌==◌, true, false, if◌then◌else◌, Option, none, some, ◌≡◌, refl, sym, ap, subst, ◌∙◌, arith,
  inl, inr, Bool-cases, Option-cases,
}
use my_game_server.Base.Map.{Map, lookup, insert, lookup-insert}
use my_game_server.MatchQueue.{MatchQueue, contains}
use my_game_server.Lobby.Defs.{in_room, Session, Lobby, State}
use my_game_server.MatchQueue.Line.{IsValid}
use my_game_server.MatchQueue.Members.{Taken, Popped, pop_pair-Popped}
use my_game_server.Lobby.{
  cancel_found, cancel_match_timer, enter_room, make_room, match_found, match_popped, try_match,
}
use my_game_server.Lobby.Inv.{
  is_matching, is_waiting, conn_is, is_bound, Good, Queued, Sound, IsSound, Each-insert,
  Queued-insert, Bound-insert,
}

-- A session that changes its stage and room only.
pub restage-Sound :
    (n : ℕ) (cs : Map ℕ) (m : Map Session) (q q' : MatchQueue) (pid : ℕ) (s s' : Session)
    → Sound n cs m q
    → lookup pid m ≡ some s
    → Good n pid s'
    → s'.conn ≡ s.conn
    → IsValid q'
    → ((j : ℕ) → contains q' j ≡ (if pid == j then is_matching s'.stage else contains q j))
    → Sound n cs (insert pid s' m) q'
restage-Sound n cs m q q' pid s s' v e good conn valid h = record {
  each = Each-insert n pid s' m v.each good;
  bound =
      Bound-insert cs pid s' m (λ c p f g. v.bound c p f)
        (λ c f. ap (conn_is c) conn ∙ (sym (ap (is_bound c) e) ∙ v.bound c pid f));
  queued = Queued-insert q q' pid s' m v.queued h;
  valid = valid;
}

-- Two players were taken off the queue and still have sessions in matching.
record Leaving (n : ℕ) (cs : Map ℕ) (m : Map Session) (q' : MatchQueue) (a b : ℕ) (sa sb : Session)
    : Type 0 where
  queue : MatchQueue
  sound : Sound n cs m queue
  taken : Taken queue a b q'
  found_a : lookup a m ≡ some sa
  found_b : lookup b m ≡ some sb

abbrev LeavingLobby : Lobby → ℕ → ℕ → Session → Session → Type 0
LeavingLobby l a b sa sb =
    Leaving l.next_player_id l.conn_to_player l.sessions l.match_queue a b sa sb

cancel-Leaving :
    (o : Option ℕ) (pid a b : ℕ) (sa sb : Session) (st : State)
    → LeavingLobby st.1 a b sa sb
    → LeavingLobby (cancel_found pid o st).1 a b sa sb
cancel-Leaving none pid a b sa sb st v = v
cancel-Leaving (some t) pid a b sa sb (w, l) v = v

cancel_match_timer-Leaving :
    (pid a b : ℕ) (sa sb : Session) (st : State)
    → LeavingLobby st.1 a b sa sb
    → LeavingLobby (cancel_match_timer pid st).1 a b sa sb
unfolding cancel_match_timer
cancel_match_timer-Leaving pid a b sa sb (w, l) v =
    cancel-Leaving (lookup pid l.match_timer) pid a b sa sb (w, l) v

none_left :
    (q q' : MatchQueue) (m : Map Session) (a b : ℕ) (ra rb : Session)
    → Queued q m
    → ((j : ℕ) → contains q' j ≡ (if a == j then false else if b == j then false else contains q j))
    → ra.stage ≡ in_room
    → rb.stage ≡ in_room
    → Queued q' (insert b rb (insert a ra m))
none_left q q' m a b ra rb h left ea eb j = elim (Bool-cases (b == j)) [
  | inl is_b ↦
      let out : contains q' j ≡ false = ground (arith, left j, is_b) in
      let l : lookup j (insert b rb (insert a ra m)) ≡ some rb =
        rw is_b at (lookup-insert b j rb (insert a ra m)) in
      out ∙ (sym (ap is_matching eb) ∙ ap is_waiting (sym l))
  | inr not_b ↦
      let l : lookup j (insert b rb (insert a ra m)) ≡ lookup j (insert a ra m) =
        rw not_b at (lookup-insert b j rb (insert a ra m)) in
      elim (Bool-cases (a == j)) [
        | inl is_a ↦
            let out : contains q' j ≡ false = ground (arith, left j, is_a) in
            let k : lookup j (insert a ra m) ≡ some ra = rw is_a at (lookup-insert a j ra m) in
            out ∙ (sym (ap is_matching ea) ∙ ap is_waiting (sym (l ∙ k)))
        | inr not_a ↦
            let same : contains q' j ≡ contains q j = rw (not_a, not_b) at (left j) in
            let k : lookup j (insert a ra m) ≡ lookup j m = rw not_a at (lookup-insert a j ra m) in
            same ∙ (h j ∙ ap is_waiting (sym (l ∙ k)))
      ]
]

-- Both players enter the room, in turn.
both_enter :
    (n : ℕ) (cs : Map ℕ) (m : Map Session) (q' : MatchQueue) (a b : ℕ) (sa sb : Session) (room : ℕ)
    → Leaving n cs m q' a b sa sb
    → Sound n cs
        (insert b
          (record sb { stage = in_room; room_id = room })
          (insert a (record sa { stage = in_room; room_id = room }) m))
        q'
both_enter n cs m q' a b sa sb room v =
    let q = v.queue in
    let (valid, wa, wb, apart, left) = v.taken in
    let ra : Session = record sa { stage = in_room; room_id = room } in
    let rb : Session = record sb { stage = in_room; room_id = room } in
    let (pa, la, oa) = v.sound.each a sa v.found_a in
    let (pb, lb, ob) = v.sound.each b sb v.found_b in
    record {
      each =
          Each-insert n b rb (insert a ra m) (Each-insert n a ra m v.sound.each (pa, la, tt))
            (pb, lb, tt);
      bound =
          Bound-insert cs b rb (insert a ra m)
            (λ c p e g.
              Bound-insert cs a ra m (λ d i f h. v.sound.bound d i f)
                (λ d f. sym (ap (is_bound d) v.found_a) ∙ v.sound.bound d a f) c p e)
            (λ c e. sym (ap (is_bound c) v.found_b) ∙ v.sound.bound c b e);
      queued = none_left q q' m a b ra rb v.sound.queued left refl refl;
      valid = valid;
    }

make_room-IsSound :
    (a b : ℕ) (sa sb : Session) (st : State)
    → LeavingLobby st.1 a b sa sb
    → IsSound (make_room a b sa sb st).1
unfolding make_room enter_room
make_room-IsSound a b sa sb (w, l) v =
    both_enter l.next_player_id l.conn_to_player l.sessions l.match_queue a b sa sb l.next_room_id v

pub waiting_session :
    (l : Lobby) (j : ℕ)
    → IsSound l
    → contains l.match_queue j ≡ true
    → (s : Session) × (lookup j l.sessions ≡ some s)
waiting_session l j v w = elim (Option-cases (lookup j l.sessions)) [
  | inl e ↦ let f : true ≡ false = sym w ∙ (v.queued j ∙ ap is_waiting e) in cc
  | inr (s, e) ↦ (s, e)
]

match_popped-IsSound :
    (r : Option (Option (ℕ × ℕ) × MatchQueue)) (st : State)
    → IsSound st.1
    → Popped st.1.match_queue r
    → IsSound (match_popped r st).1
match_popped-IsSound r (w, l) v (inl (q', e, (valid, same))) =
    subst (λ o. IsSound (match_popped o (w, l)).1) (sym e)
      (record { each = v.each; bound = v.bound; queued = λ j. same j ∙ v.queued j; valid = valid })
match_popped-IsSound r (w, l) v (inr (a, b, q', e, (valid, wa, wb, apart, left))) =
    let (sa, fa) = waiting_session l a v wa in
    let (sb, fb) = waiting_session l b v wb in
    let l1 : Lobby = record l { match_queue = q' } in
    let start : LeavingLobby l1 a b sa sb = record {
      queue = l.match_queue;
      sound = v;
      taken = (valid, wa, wb, apart, left);
      found_a = fa;
      found_b = fb;
    } in
    subst (λ o. IsSound (match_popped o (w, l)).1) (sym e)
      (subst (λ o. IsSound (match_found a b o (lookup b l.sessions) (w, l1)).1) (sym fa)
        (subst (λ o. IsSound (match_found a b (some sa) o (w, l1)).1) (sym fb)
          (make_room-IsSound a b sa sb _ (
            cancel_match_timer-Leaving b a b sa sb _
              (cancel_match_timer-Leaving a a b sa sb _ start)))))

pub try_match-IsSound : (st : State) → IsSound st.1 → IsSound (try_match st).1
unfolding try_match
try_match-IsSound (w, l) v = match_popped-IsSound _ (w, l) v (pop_pair-Popped l.match_queue v.valid)
