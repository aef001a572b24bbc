-- ===== src/Lobby/RoomEnd.antt =====
-- game/GameServer.cc: the end of a room keeps the lobby sound.
use my_game_server.Base.{
  not, ◌&&◌, ◌≤◌, [], ◌∷◌, ℕ, ◌==◌, true, false, if◌then◌else◌, Bool, Option, none, some, ◌≡◌, refl,
  sym, ap, subst, ◌∙◌, arith, inl, inr, Bool-cases, Option-cases, ==→eq,
}
use my_game_server.Base.Map.{Map, lookup, erase}
use my_game_server.MatchQueue.{MatchQueue}
use my_game_server.Lobby.Defs.{
  Stage, in_lobby, matching, in_room, Session, Account, StoreTask, Lobby, State, emit_store,
}
use my_game_server.Lobby.Leave.{end_sessions, on_room_end, is_empty}
use my_game_server.Lobby.Inv.{
  is_matching, is_waiting, conn_is, is_bound, Orderly, Good, Each, Sound, IsSound,
}
use my_game_server.Lobby.Arrive.{emit_store-IsSound}

-- What `onRoomEnd` makes of a session.
abbrev pub reset : ℕ → Session → Session
reset room s = if s.room_id == room then record s { room_id = 0; stage = in_lobby } else s

abbrev pub reset_found : ℕ → Option Session → Option Session
reset_found room none = none
reset_found room (some s) = some (reset room s)

lookup-end_sessions :
    (room winner : ℕ) (m : Map Session) (a b : Account) (j : ℕ)
    → lookup j (end_sessions room winner m a b).sessions ≡ reset_found room (lookup j m)
unfolding lookup end_sessions
lookup-end_sessions room winner [] a b j = refl
lookup-end_sessions room winner ((pid, s) ∷ m) a b j = elim (Bool-cases (pid == j)) [
  | inl same ↦ rw same refl
  | inr other ↦ rw other (lookup-end_sessions room winner m _ _ j)
]

reset-Good : (n j room : ℕ) (s : Session) → Good n j s → Good n j (reset room s)
reset-Good n j room s (same, lt, o) = either (s.room_id == room)
  where
    either : (b : Bool) → Good n j (if b then record s { room_id = 0; stage = in_lobby } else s)
    either true = (same, lt, refl)
    either false = (same, lt, o)

is_bound-reset : (c room : ℕ) (o : Option Session) → is_bound c (reset_found room o) ≡ is_bound c o
is_bound-reset c room none = refl
is_bound-reset c room (some s) = either (s.room_id == room)
  where
    either :
        (b : Bool)
        → conn_is c (if b then record s { room_id = 0; stage = in_lobby } else s).conn
          ≡ conn_is c s.conn
    either true = refl
    either false = refl

-- Who waits is in no room, so that the end of one does not concern it.
reset_waiting :
    (room : ℕ) (s : Session) (g : Stage)
    → (1 ≤ room)
    → s.stage ≡ g
    → Orderly g s.room_id s.conn
    → is_matching (reset room s).stage ≡ is_matching s.stage
reset_waiting room s g pos e o = either (s.room_id == room) refl
  where
    no_wait : (g : Stage) → Orderly g s.room_id s.conn → s.room_id ≡ room → is_matching g ≡ false
    no_wait in_lobby o f = refl
    no_wait in_room o f = refl
    no_wait matching o f = absurd (omega (arith, o.0, f, pos))

    either :
        (b : Bool)
        → (s.room_id == room) ≡ b
        → is_matching (if b then record s { room_id = 0; stage = in_lobby } else s).stage
          ≡ is_matching s.stage
    either true f = sym (ap is_matching e ∙ no_wait g o (==→eq s.room_id room f))
    either false f = refl

on_room_end-Sound :
    (n : ℕ) (cs : Map ℕ) (m : Map Session) (q : MatchQueue) (room winner : ℕ) (a b : Account)
    → 1 ≤ room
    → Sound n cs m q
    → Sound n cs (end_sessions room winner m a b).sessions q
on_room_end-Sound n cs m q room winner a b pos v = record {
  each = each;
  bound = λ c p e.
      ap (is_bound c) (lookup-end_sessions room winner m a b p)
      ∙ (is_bound-reset c room (lookup p m) ∙ v.bound c p e);
  queued = λ j.
      v.queued j ∙ (sym (waits j) ∙ ap is_waiting (sym (lookup-end_sessions room winner m a b j)));
  valid = v.valid;
}
  where
    each : Each n (end_sessions room winner m a b).sessions
    each j t e = elim (Option-cases (lookup j m)) [
      | inl f ↦
          let g : none ≡ some t =
            sym (lookup-end_sessions room winner m a b j ∙ ap (reset_found room) f) ∙ e in
          cc
      | inr (s, f) ↦
          let g : some (reset room s) ≡ some t =
            sym (lookup-end_sessions room winner m a b j ∙ ap (reset_found room) f) ∙ e in
          let h : reset room s ≡ t = cc in subst (Good n j) h (reset-Good n j room s (v.each j s f))
    ]

    waits : (j : ℕ) → is_waiting (reset_found room (lookup j m)) ≡ is_waiting (lookup j m)
    waits j = elim (Option-cases (lookup j m)) [
      | inl f ↦ rw f refl
      | inr (s, f) ↦
          ap (λ o. is_waiting (reset_found room o)) f
          ∙ (reset_waiting room s s.stage pos refl (v.each j s f).2 ∙ ap is_waiting (sym f))
    ]

pub on_room_end-IsSound :
    (room winner : ℕ) (st : State)
    → 1 ≤ room
    → IsSound st.1
    → IsSound (on_room_end room winner st).1
unfolding on_room_end
on_room_end-IsSound room winner (w, l) pos v = either (
    not (is_empty (end_sessions room winner l.sessions [] []).winner)
    && not (is_empty (end_sessions room winner l.sessions [] []).loser))
  where
    l1 : Lobby
    l1 = record l {
      rooms = erase room l.rooms;
      sessions = (end_sessions room winner l.sessions [] []).sessions;
    }

    ended : IsSound l1
    ended =
        on_room_end-Sound l.next_player_id l.conn_to_player l.sessions l.match_queue room winner []
          [] pos v

    either :
        (b : Bool)
        → IsSound (
            if b
            then emit_store
                (StoreTask.result
                  (end_sessions room winner l.sessions [] []).winner
                  (end_sessions room winner l.sessions [] []).loser)
                l1
            else l1)
    either true = emit_store-IsSound _ l1 ended
    either false = ended
