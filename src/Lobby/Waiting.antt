-- ===== src/Lobby/Waiting.antt =====
-- game/GameServer.cc: asking for a match, and the timeout of one, keep the lobby sound.
use my_game_server.Base.{
  ℕ, ◌==◌, true, false, if◌then◌else◌, Option, none, some, ◌≡◌, refl, sym, ap, subst, ◌∙◌, inl, inr,
  Bool-cases,
}
use my_game_server.Base.Map.{lookup, erase}
use my_game_server.MatchQueue.{MatchQueue, contains}
use my_game_server.Lobby.Defs.{
  Stage, in_lobby, matching, in_room, Session, Lobby, State, session_of,
}
use my_game_server.MatchQueue.{push, remove}
use my_game_server.MatchQueue.Line.{IsValid, push-IsValid, remove-IsValid}
use my_game_server.MatchQueue.Members.{push_new, contains-remove}
use my_game_server.TimerWheel.{Wheel}
use my_game_server.Lobby.Defs.{Timer}
use my_game_server.Lobby.{
  wait_for_match, match_pushed, match_in_stage, match_session, on_match, notify_failure, give_up,
  on_match_timeout,
}
use my_game_server.Lobby.Inv.{is_matching, is_waiting, conn_is, is_online, Orderly, Good, IsSound}
use my_game_server.Lobby.Arrive.{session_of-Bound}
use my_game_server.Lobby.Matching.{restage-Sound, waiting_session, try_match-IsSound}

-- The player is pushed and waits.
pub wait_for_match-IsSound :
    (s : Session) (q' : MatchQueue) (w : Wheel Timer) (l : Lobby)
    → IsSound l
    → lookup s.player_id l.sessions ≡ some s
    → is_online s.conn ≡ true
    → s.stage ≡ in_lobby
    → push l.match_queue s.player_id ≡ (q', true)
    → IsSound (wait_for_match s q' (w, l)).1
unfolding wait_for_match
wait_for_match-IsSound s q' w l v found online e pushed =
    let (same, lt, o) = v.each s.player_id s found in
    let out : contains l.match_queue s.player_id ≡ false =
      v.queued s.player_id ∙ (ap is_waiting found ∙ ap is_matching e) in
    let (q2, again, grown) = push_new l.match_queue s.player_id out in
    let is_q : q2 ≡ q' = ap (λ r. r.0) (sym again ∙ pushed) in
    let valid : IsValid q' =
      subst (λ r. IsValid r.0) pushed (push-IsValid l.match_queue s.player_id v.valid) in
    let room : s.room_id ≡ 0 = subst (λ g. Orderly g s.room_id s.conn) e o in
    restage-Sound l.next_player_id l.conn_to_player l.sessions l.match_queue q' s.player_id s
      (record s { stage = matching }) v found (refl, lt, (room, online)) refl valid
      (subst
        (λ q.
          (j : ℕ) → contains q j ≡ (if s.player_id == j then true else contains l.match_queue j))
        is_q grown)

on_match_session :
    (o : Option Session) (st : State)
    → IsSound st.1
    → ((s : Session)
        → o ≡ some s
        → (lookup s.player_id st.1.sessions ≡ some s) × (is_online s.conn ≡ true))
    → IsSound (match_session o st).1
unfolding wait_for_match
on_match_session none st v h = v
on_match_session (some s) (w, l) v h = at s.stage refl
  where
    at : (g : Stage) → s.stage ≡ g → IsSound (match_in_stage g s (w, l)).1
    at matching e = v
    at in_room e = v
    at in_lobby e =
        let (found, online) = h s refl in
        let out : contains l.match_queue s.player_id ≡ false =
          v.queued s.player_id ∙ (ap is_waiting found ∙ ap is_matching e) in
        let (q', pushed, grown) = push_new l.match_queue s.player_id out in
        subst (λ r. IsSound (match_pushed s r (w, l)).1) (sym pushed)
          (try_match-IsSound (wait_for_match s q' (w, l))
            (wait_for_match-IsSound s q' w l v found online e pushed))

online_of : (c : ℕ) (o : Option ℕ) → conn_is c o ≡ true → is_online o ≡ true
online_of c none e = e
online_of c (some d) e = refl

pub on_match-IsSound : (conn : ℕ) (st : State) → IsSound st.1 → IsSound (on_match conn st).1
unfolding on_match
on_match-IsSound conn (w, l) v =
    on_match_session (session_of l conn) (w, l) v
      (λ s e. let (f, b) = session_of-Bound l conn s v e in (f, online_of conn s.conn b))

notify-IsSound : (o : Option ℕ) (l : Lobby) → IsSound l → IsSound (notify_failure o l)
notify-IsSound none l v = v
notify-IsSound (some c) l v = v

pub on_match_timeout-IsSound :
    (pid : ℕ) (st : State) → IsSound st.1 → IsSound (on_match_timeout pid st).1
unfolding on_match_timeout
on_match_timeout-IsSound pid (w, l) v = elim (Bool-cases (contains l.match_queue pid)) [
  | inl here ↦
      let (s, found) = waiting_session l pid v here in
      let l1 : Lobby = record l {
        match_timer = erase pid l.match_timer;
        match_queue = remove l.match_queue pid;
      } in
      rw here (
        subst (λ o. IsSound (give_up pid o l1)) (sym found)
          (notify-IsSound s.conn _ (
            restage-Sound l.next_player_id l.conn_to_player l.sessions l.match_queue
              (remove l.match_queue pid) pid s (record s { stage = in_lobby }) v found
              (idle s found here) refl (remove-IsValid l.match_queue pid v.valid)
              (contains-remove l.match_queue pid))))
  | inr gone ↦
      rw gone (record { each = v.each; bound = v.bound; queued = v.queued; valid = v.valid })
]
  where
    no_room :
        (g : Stage) (room : ℕ) (c : Option ℕ) → is_matching g ≡ true → Orderly g room c → room ≡ 0
    no_room in_lobby room c e o = o
    no_room matching room c e o = o.0
    no_room in_room room c e o = cc

    idle :
        (s : Session)
        → lookup pid l.sessions ≡ some s
        → contains l.match_queue pid ≡ true
        → Good l.next_player_id pid (record s { stage = in_lobby })
    idle s e here =
        let (same, lt, o) = v.each pid s e in
        (
          same,
          lt,
          no_room s.stage s.room_id s.conn (sym (ap is_waiting e) ∙ (sym (v.queued pid) ∙ here)) o,
        )
