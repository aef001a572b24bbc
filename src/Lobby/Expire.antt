-- ===== src/Lobby/Expire.antt =====
-- game/GameServer.cc: the timers of the lobby, the expiry of a session among them, keep it sound.
use my_game_server.Base.{
  [], ◌∷◌, ℕ, ◌==◌, true, false, if◌then◌else◌, Bool, Option, none, some, ◌≡◌, refl, sym, ap, subst,
  ◌∙◌, inl, inr, Bool-cases, ==→eq,
}
use my_game_server.Base.Map.{Map, lookup, erase, lookup-erase}
use my_game_server.MatchQueue.{MatchQueue, contains}
use my_game_server.Lobby.Defs.{
  Stage, in_lobby, matching, in_room, Session, Effect, Lobby, State, emit,
}
use my_game_server.Lobby.Defs.{Timer, match_timeout, session_expiry, heartbeat_sweep}
use my_game_server.Lobby.Leave.{
  forfeit_room, forfeit, erase_session, expire_conn, expire_found, expire_session, sweep_session,
  sweep_all, sweep, is_late, run_timer,
}
use my_game_server.Lobby.Inv.{
  is_matching, is_waiting, conn_is, is_bound, is_online, Orderly, Good, Sound, IsSound,
}
use my_game_server.Lobby.Waiting.{on_match_timeout-IsSound}

not_waiting :
    (g : Stage) (room : ℕ) (o : Option ℕ) → Orderly g room o → o ≡ none → is_matching g ≡ false
not_waiting in_lobby room o h e = refl
not_waiting in_room room o h e = refl
not_waiting matching room o h e = let f : false ≡ true = sym (ap is_online e) ∙ h.1 in cc

erase-Sound :
    (n : ℕ) (cs : Map ℕ) (m : Map Session) (q : MatchQueue) (pid : ℕ) (s : Session)
    → Sound n cs m q
    → lookup pid m ≡ some s
    → s.conn ≡ none
    → Sound n cs (erase pid m) q
erase-Sound n cs m q pid s v e off = record {
  each = λ j t f. each j t f;
  bound = bound;
  queued = queued;
  valid = v.valid;
}
  where
    each : (j : ℕ) (t : Session) → lookup j (erase pid m) ≡ some t → Good n j t
    each j t f = elim (Bool-cases (pid == j)) [
      | inl same ↦ let g : none ≡ some t = sym (rw same at (lookup-erase pid j m)) ∙ f in cc
      | inr other ↦ v.each j t (sym (rw other at (lookup-erase pid j m)) ∙ f)
    ]

    bound : (c p : ℕ) → lookup c cs ≡ some p → is_bound c (lookup p (erase pid m)) ≡ true
    bound c p f = elim (Bool-cases (pid == p)) [
      | inl same ↦
          let h : is_bound c (lookup pid m) ≡ true =
            v.bound c pid (subst (λ i. lookup c cs ≡ some i) (sym (==→eq pid p same)) f) in
          let g : false ≡ true = sym (ap (is_bound c) e ∙ ap (conn_is c) off) ∙ h in cc
      | inr other ↦ ap (is_bound c) (rw other at (lookup-erase pid p m)) ∙ v.bound c p f
    ]

    queued : (j : ℕ) → contains q j ≡ is_waiting (lookup j (erase pid m))
    queued j = elim (Bool-cases (pid == j)) [
      | inl same ↦
          let (i, lt, o) = v.each pid s e in
          let out : contains q pid ≡ false =
            v.queued pid ∙ (ap is_waiting e ∙ not_waiting s.stage s.room_id s.conn o off) in
          subst (λ i. contains q i ≡ false) (==→eq pid j same) out
          ∙ ap is_waiting (sym (rw same at (lookup-erase pid j m)))
      | inr other ↦ v.queued j ∙ ap is_waiting (sym (rw other at (lookup-erase pid j m)))
    ]

expire_conn-IsSound :
    (o : Option ℕ) (s : Session) (pid : ℕ) (l : Lobby)
    → IsSound l
    → lookup pid l.sessions ≡ some s
    → s.conn ≡ o
    → IsSound (expire_conn o s pid l)
expire_conn-IsSound (some c) s pid l v e f = v
expire_conn-IsSound none s pid l v e f = at s.stage
  where
    gone : Sound l.next_player_id l.conn_to_player (erase pid l.sessions) l.match_queue
    gone = erase-Sound l.next_player_id l.conn_to_player l.sessions l.match_queue pid s v e f

    in_a_room : (o : Option (Option ℕ)) → IsSound (erase_session pid (forfeit_room o s pid l))
    in_a_room none = gone
    in_a_room (some i) = gone

    at : (g : Stage) → IsSound (erase_session pid (forfeit g s pid l))
    at in_lobby = gone
    at matching = gone
    at in_room = in_a_room (lookup s.room_id l.rooms)

expire_found-IsSound :
    (o : Option Session) (pid : ℕ) (l : Lobby)
    → IsSound l
    → lookup pid l.sessions ≡ o
    → IsSound (expire_found o pid l)
expire_found-IsSound none pid l v e = v
expire_found-IsSound (some s) pid l v e = expire_conn-IsSound s.conn s pid l v e refl

pub expire_session-IsSound :
    (pid : ℕ) (st : State) → IsSound st.1 → IsSound (expire_session pid st).1
unfolding expire_session
expire_session-IsSound pid (w, l) v = expire_found-IsSound (lookup pid l.sessions) pid l v refl

sweep_all-IsSound : (m : Map Session) (l : Lobby) → IsSound l → IsSound (sweep_all m l)
unfolding sweep_all
sweep_all-IsSound [] l v = v
sweep_all-IsSound ((pid, s) ∷ m) l v = sweep_all-IsSound m _ (one s.conn)
  where
    shuts : (b : Bool) (c : ℕ) → IsSound (if b then emit (Effect.shut c) l else l)
    shuts true c = v
    shuts false c = v

    one : (o : Option ℕ) → IsSound (sweep_session s o l)
    one none = v
    one (some c) = shuts (is_late l.clock_ms s.last_heartbeat_ms) c

pub run_timer-IsSound : (t : Timer) (st : State) → IsSound st.1 → IsSound (run_timer t st).1
unfolding run_timer sweep
run_timer-IsSound (match_timeout pid) st v = on_match_timeout-IsSound pid st v
run_timer-IsSound (session_expiry pid) st v = expire_session-IsSound pid st v
run_timer-IsSound heartbeat_sweep (w, l) v = sweep_all-IsSound l.sessions l v
