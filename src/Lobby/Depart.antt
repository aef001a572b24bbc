-- ===== src/Lobby/Depart.antt =====
-- game/GameServer.cc: lost connections, expired sessions and ended rooms keep the lobby sound.
use my_game_server.Base.{
  ℕ, ◌==◌, true, if◌then◌else◌, Option, none, some, ◌≡◌, refl, sym, ap, subst, ◌∙◌, inl, inr,
  Bool-cases, ==→eq, ==→ne, ◌≢◌,
}
use my_game_server.Base.Map.{Map, lookup, insert, erase, lookup-erase}
use my_game_server.MatchQueue.{MatchQueue, contains}
use my_game_server.Lobby.Defs.{
  put_session, Stage, in_lobby, matching, in_room, Session, Lobby, State,
}
use my_game_server.MatchQueue.{remove}
use my_game_server.MatchQueue.Line.{IsValid, remove-IsValid}
use my_game_server.MatchQueue.Members.{contains-remove}
use my_game_server.TimerWheel.{Wheel}
use my_game_server.Lobby.Defs.{Timer}
use my_game_server.Lobby.Leave.{
  drop_in_room, leave_stage, leave, leave_session, leave_conn, on_disconnect,
}
use my_game_server.Lobby.Inv.{
  is_matching, conn_is, is_bound, Orderly, Good, Sound, IsSound, Each-insert, Queued-insert,
  Bound-insert, Queued-same,
}
use my_game_server.Lobby.Arrive.{emit_store-IsSound}

same_conn : (c d : ℕ) (o : Option ℕ) → conn_is c o ≡ true → conn_is d o ≡ true → c ≡ d
same_conn c d none e f = cc
same_conn c d (some i) e f = sym (==→eq d i f ∙ sym (==→eq c i e))

erased_lookup :
    (conn c p : ℕ) (cs : Map ℕ)
    → lookup c (erase conn cs) ≡ some p
    → (conn ≢ c) × (lookup c cs ≡ some p)
erased_lookup conn c p cs e = elim (Bool-cases (conn == c)) [
  | inl same ↦ let f : none ≡ some p = sym (rw same at (lookup-erase conn c cs)) ∙ e in cc
  | inr other ↦ (==→ne conn c other, sym (rw other at (lookup-erase conn c cs)) ∙ e)
]

erase_conn-Sound :
    (n : ℕ) (cs : Map ℕ) (m : Map Session) (q : MatchQueue) (conn : ℕ)
    → Sound n cs m q
    → Sound n (erase conn cs) m q
erase_conn-Sound n cs m q conn v = record {
  each = v.each;
  bound = λ c p e. v.bound c p (erased_lookup conn c p cs e).1;
  queued = v.queued;
  valid = v.valid;
}

-- The session of a connection that is lost.
offline-Sound :
    (n : ℕ) (cs : Map ℕ) (m : Map Session) (q q' : MatchQueue) (conn pid : ℕ) (s s' : Session)
    → Sound n cs m q
    → lookup conn cs ≡ some pid
    → lookup pid m ≡ some s
    → Good n pid s'
    → IsValid q'
    → ((j : ℕ) → contains q' j ≡ (if pid == j then is_matching s'.stage else contains q j))
    → Sound n (erase conn cs) (insert pid s' m) q'
offline-Sound n cs m q q' conn pid s s' v f e good valid h = record {
  each = Each-insert n pid s' m v.each good;
  bound =
      Bound-insert (erase conn cs) pid s' m (λ c p i g. v.bound c p (erased_lookup conn c p cs i).1)
        nobody;
  queued = Queued-insert q q' pid s' m v.queued h;
  valid = valid;
}
  where
    held : (c : ℕ) → lookup c cs ≡ some pid → conn_is c s.conn ≡ true
    held c i = sym (ap (is_bound c) e) ∙ v.bound c pid i

    nobody : (c : ℕ) → lookup c (erase conn cs) ≡ some pid → conn_is c s'.conn ≡ true
    nobody c i =
        let (other, k) = erased_lookup conn c pid cs i in
        absurd (other (same_conn conn c s.conn (held conn f) (held c k)))

drop_in_room-same :
    (o : Option (Option ℕ)) (room pid : ℕ) (l : Lobby)
    → IsSound l
    → IsSound (drop_in_room o room pid l)
drop_in_room-same none room pid l v = v
drop_in_room-same (some i) room pid l v = v

leave_stage-IsSound :
    (conn pid : ℕ) (s : Session) (l : Lobby) (timer : ℕ)
    → IsSound l
    → lookup conn l.conn_to_player ≡ some pid
    → lookup pid l.sessions ≡ some s
    → (g : Stage) → s.stage ≡ g
    → let r =
        leave_stage g
          (record s { conn = none })
          pid
          (record l { conn_to_player = erase conn l.conn_to_player }) in
      IsSound (put_session (record r.0 { expire_timer_id = timer }) pid r.1)
leave_stage-IsSound conn pid s l timer v f e in_lobby stage =
    let (same, lt, o) = v.each pid s e in
    offline-Sound l.next_player_id l.conn_to_player l.sessions l.match_queue l.match_queue conn pid
      s _ v f e
      (
        same,
        lt,
        subst (λ g. Orderly g s.room_id none) (sym stage)
            (subst (λ g. Orderly g s.room_id s.conn) stage o),
      )
      v.valid (Queued-same l.match_queue l.sessions pid s s.stage v.queued e refl)
leave_stage-IsSound conn pid s l timer v f e matching stage =
    let (same, lt, o) = v.each pid s e in
    let idle : s.room_id ≡ 0 = (subst (λ g. Orderly g s.room_id s.conn) stage o).0 in
    offline-Sound l.next_player_id l.conn_to_player l.sessions l.match_queue
      (remove l.match_queue pid) conn pid s _ v f e (same, lt, idle)
      (remove-IsValid l.match_queue pid v.valid) (contains-remove l.match_queue pid)
leave_stage-IsSound conn pid s l timer v f e in_room stage = at (lookup s.room_id l.rooms)
  where
    kept :
        Sound l.next_player_id
          (erase conn l.conn_to_player)
          (insert pid (record s { conn = none; expire_timer_id = timer }) l.sessions)
          l.match_queue
    kept =
        let (same, lt, o) = v.each pid s e in
        offline-Sound l.next_player_id l.conn_to_player l.sessions l.match_queue l.match_queue conn
          pid s _ v f e (same, lt, subst (λ g. Orderly g s.room_id none) (sym stage) tt) v.valid
          (Queued-same l.match_queue l.sessions pid s s.stage v.queued e refl)

    at :
        (o : Option (Option ℕ))
        → IsSound (
            put_session
              (record s { conn = none; expire_timer_id = timer })
              pid
              (drop_in_room o s.room_id pid
                (record l { conn_to_player = erase conn l.conn_to_player })))
    at none = kept
    at (some i) = kept

leave_session-IsSound :
    (conn pid : ℕ) (o : Option Session) (w : Wheel Timer) (l : Lobby)
    → IsSound l
    → lookup conn l.conn_to_player ≡ some pid
    → lookup pid l.sessions ≡ o
    → IsSound (leave_session o pid (w, record l { conn_to_player = erase conn l.conn_to_player })).1
unfolding leave
leave_session-IsSound conn pid none w l v f e =
    erase_conn-Sound l.next_player_id l.conn_to_player l.sessions l.match_queue conn v
leave_session-IsSound conn pid (some s) w l v f e =
    emit_store-IsSound _ _ (leave_stage-IsSound conn pid s l _ v f e s.stage refl)

leave_conn-IsSound :
    (conn : ℕ) (o : Option ℕ) (w : Wheel Timer) (l : Lobby)
    → IsSound l
    → lookup conn l.conn_to_player ≡ o
    → IsSound (leave_conn o conn (w, l)).1
leave_conn-IsSound conn none w l v e = v
leave_conn-IsSound conn (some pid) w l v e =
    leave_session-IsSound conn pid (lookup pid l.sessions) w l v e refl

pub on_disconnect-IsSound :
    (conn : ℕ) (st : State) → IsSound st.1 → IsSound (on_disconnect conn st).1
unfolding on_disconnect
on_disconnect-IsSound conn (w, l) v =
    leave_conn-IsSound conn (lookup conn l.conn_to_player) w l v refl
