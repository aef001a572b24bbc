-- ===== src/Lobby/Arrive.antt =====
-- game/GameServer.cc: logging in, coming back and sending keep the lobby sound.
use my_game_server.Base.{
  ℕ, ◌+◌, ◌==◌, true, false, if◌then◌else◌, Bool, Option, none, some, ◌≡◌, refl, sym, ap, subst,
  ◌∙◌, arith, inl, inr, Bool-cases, Option-cases, ==→eq, ◌≢◌,
}
use my_game_server.Base.Map.{lookup}
use my_game_server.MatchQueue.{contains}
use my_game_server.Lobby.Defs.{
  Stage, in_lobby, matching, in_room, Session, Token, Account, Effect, StoreTask, Lobby, State,
  emit, emit_store, session_of, bind_session, gen_token,
}
use my_game_server.Lobby.{
  on_login, rebind_room, resume, resume_free, resume_found, on_reconnect, input_in_room,
  input_in_stage, input_session, on_input, beat, on_heartbeat,
}
use my_game_server.Lobby.Inv.{
  is_waiting, conn_is, is_bound, Orderly, Each, IsSound, Each-insert, Queued-insert, Bound-bind,
  Queued-same, same-Sound,
}

pub emit_store-IsSound : (t : StoreTask) (l : Lobby) → IsSound l → IsSound (emit_store t l)
emit_store-IsSound t l v = either l.has_writer
  where
    either : (b : Bool) → IsSound (if b then emit (Effect.store t) l else l)
    either true = v
    either false = v

pub on_login-IsSound :
    (conn : ℕ) (a : Account) (st : State) → IsSound st.1 → IsSound (on_login conn a st).1
unfolding on_login gen_token
on_login-IsSound conn a (w, l) v = emit_store-IsSound _ _ (record {
  each =
      Each-insert (l.next_player_id + 1) l.next_player_id _ l.sessions older
        (refl, omega arith, refl);
  bound = Bound-bind l.conn_to_player conn l.next_player_id _ l.sessions v.bound refl unknown;
  queued = Queued-insert l.match_queue l.match_queue l.next_player_id _ l.sessions v.queued nobody;
  valid = v.valid;
})
  where
    older : Each (l.next_player_id + 1) l.sessions
    older j s e = let (same, lt, o) = v.each j s e in (same, omega arith, o)

    free : contains l.match_queue l.next_player_id ≡ false
    free = elim (Option-cases (lookup l.next_player_id l.sessions)) [
      | inl e ↦ v.queued l.next_player_id ∙ ap is_waiting e
      | inr (s, e) ↦ let (same, lt, o) = v.each l.next_player_id s e in absurd (omega (arith, lt))
    ]

    nobody :
        (j : ℕ)
        → contains l.match_queue j
          ≡ (if l.next_player_id == j then false else contains l.match_queue j)
    nobody j = elim (Bool-cases (l.next_player_id == j)) [
      | inl same ↦
          rw same
            (subst (λ i. contains l.match_queue i ≡ false) (==→eq l.next_player_id j same) free)
      | inr other ↦ rw other refl
    ]

    unknown : (c : ℕ) → lookup c l.conn_to_player ≢ some l.next_player_id
    unknown c e = elim (Option-cases (lookup l.next_player_id l.sessions)) [
      | inl f ↦ let b : false ≡ true = sym (ap (is_bound c) f) ∙ v.bound c l.next_player_id e in cc
      | inr (s, f) ↦ let (same, lt, o) = v.each l.next_player_id s f in absurd (omega (arith, lt))
    ]

Orderly-online : (s : Stage) (room conn : ℕ) → Orderly s room none → Orderly s room (some conn)
Orderly-online in_lobby room conn o = o
Orderly-online matching room conn o = (o.0, refl)
Orderly-online in_room room conn o = tt

rebind_room-IsSound :
    (s : Stage) (o : Option (Option ℕ)) (room pid conn : ℕ) (l : Lobby)
    → IsSound l
    → IsSound (rebind_room s o room pid conn l)
rebind_room-IsSound in_room (some loop) room pid conn l v = v
rebind_room-IsSound in_room none room pid conn l v = v
rebind_room-IsSound in_lobby o room pid conn l v = v
rebind_room-IsSound matching o room pid conn l v = v

resume-IsSound :
    (conn : ℕ) (s : Session) (st : State)
    → IsSound st.1
    → lookup s.player_id st.1.sessions ≡ some s
    → s.conn ≡ none
    → IsSound (resume conn s st).1
unfolding resume
resume-IsSound conn s (w, l) v e off =
    let (same, lt, o) = v.each s.player_id s e in
    let s1 : Session = record s {
      expire_timer_id = 0;
      conn = some conn;
      last_heartbeat_ms = l.clock_ms;
    } in
    emit_store-IsSound _ _ (
      rebind_room-IsSound s.stage _ _ _ _ _ (record {
        each = Each-insert l.next_player_id s.player_id s1 l.sessions v.each (
          refl,
          lt,
          Orderly-online s.stage s.room_id conn (subst (Orderly s.stage s.room_id) off o),
        );
        bound = Bound-bind l.conn_to_player conn s.player_id s1 l.sessions v.bound refl unbound;
        queued =
            Queued-insert l.match_queue l.match_queue s.player_id s1 l.sessions v.queued
              (Queued-same l.match_queue l.sessions s.player_id s s.stage v.queued e refl);
        valid = v.valid;
      }))
  where
    unbound : (c : ℕ) → lookup c l.conn_to_player ≢ some s.player_id
    unbound c f =
        let b : false ≡ true =
          sym (ap (is_bound c) e ∙ ap (conn_is c) off) ∙ v.bound c s.player_id f in
        cc

resume_free-IsSound :
    (o : Option ℕ) (b : Bool) (conn : ℕ) (s : Session) (st : State)
    → IsSound st.1
    → lookup s.player_id st.1.sessions ≡ some s
    → s.conn ≡ o
    → IsSound (resume_free o b conn s st).1
resume_free-IsSound none true conn s st v e f = resume-IsSound conn s st v e f
resume_free-IsSound none false conn s st v e f = v
resume_free-IsSound (some c) b conn s st v e f = v

resume_found-IsSound :
    (conn : ℕ) (token : Token) (pid : ℕ) (o : Option Session) (st : State)
    → IsSound st.1
    → lookup pid st.1.sessions ≡ o
    → IsSound (resume_found conn token o st).1
resume_found-IsSound conn token pid none st v e = v
resume_found-IsSound conn token pid (some s) st v e =
    let (same, lt, o) = v.each pid s e in
    resume_free-IsSound s.conn _ conn s st v
      (subst (λ i. lookup i st.1.sessions ≡ some s) (sym same) e) refl

pub on_reconnect-IsSound :
    (conn pid : ℕ) (token : Token) (st : State)
    → IsSound st.1
    → IsSound (on_reconnect conn pid token st).1
unfolding on_reconnect
on_reconnect-IsSound conn pid token (w, l) v =
    resume_found-IsSound conn token pid (lookup pid l.sessions) (w, l) v refl

-- What a connection leads to.
pub session_of-Bound :
    (l : Lobby) (conn : ℕ) (s : Session)
    → IsSound l
    → session_of l conn ≡ some s
    → (lookup s.player_id l.sessions ≡ some s) × (conn_is conn s.conn ≡ true)
unfolding session_of
session_of-Bound l conn s v e = elim (Option-cases (lookup conn l.conn_to_player)) [
  | inl f ↦ let g : none ≡ some s = sym (ap (λ o. bind_session o l.sessions) f) ∙ e in cc
  | inr (pid, f) ↦
      let g : lookup pid l.sessions ≡ some s = sym (ap (λ o. bind_session o l.sessions) f) ∙ e in
      let (same, lt, o) = v.each pid s g in
      (
        subst (λ i. lookup i l.sessions ≡ some s) (sym same) g,
        sym (ap (is_bound conn) g) ∙ v.bound conn pid f,
      )
]

beat-IsSound :
    (o : Option Session) (l : Lobby)
    → IsSound l
    → ((s : Session) → o ≡ some s → lookup s.player_id l.sessions ≡ some s)
    → IsSound (beat o l)
beat-IsSound none l v h = v
beat-IsSound (some s) l v h =
    let (same, lt, o) = v.each s.player_id s (h s refl) in
    same-Sound l.next_player_id l.conn_to_player l.sessions l.match_queue s.player_id s _ v
      (h s refl) (refl, lt, o) refl refl

pub on_heartbeat-IsSound :
    (conn ms : ℕ) (st : State) → IsSound st.1 → IsSound (on_heartbeat conn ms st).1
unfolding on_heartbeat
on_heartbeat-IsSound conn ms (w, l) v =
    beat-IsSound (session_of l conn) l v (λ s e. (session_of-Bound l conn s v e).0)

input_in_room-IsSound :
    (o : Option (Option ℕ)) (room pid i : ℕ) (l : Lobby)
    → IsSound l
    → IsSound (input_in_room o room pid i l)
input_in_room-IsSound none room pid i l v = v
input_in_room-IsSound (some loop) room pid i l v = v

input_session-IsSound :
    (o : Option Session) (i : ℕ) (l : Lobby) → IsSound l → IsSound (input_session o i l)
input_session-IsSound none i l v = v
input_session-IsSound (some s) i l v = at s.stage
  where
    at : (g : Stage) → IsSound (input_in_stage g s i l)
    at in_lobby = v
    at matching = v
    at in_room = input_in_room-IsSound _ _ _ i l v

pub on_input-IsSound : (conn i : ℕ) (st : State) → IsSound st.1 → IsSound (on_input conn i st).1
unfolding on_input
on_input-IsSound conn i (w, l) v = input_session-IsSound (session_of l conn) i l v
