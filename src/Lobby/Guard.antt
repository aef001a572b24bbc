-- ===== src/Lobby/Guard.antt =====
-- game/GameServer.cc: who may take over a session.
use my_game_server.Base.{ℕ, true, false, Bool, Option, none, some, ◌≡◌, ◌⊎◌, refl, arith, inl, inr}
use my_game_server.Base.Map.{lookup}
use my_game_server.Lobby.Defs.{Session, Token, Lobby, State}
use my_game_server.Lobby.{same_token, reject_login, resume_free, resume_found, on_reconnect}

-- Sessions, connections, queue, rooms and timers are as they were.
pub record Untouched (st st' : State) : Type 0 where
  wheel : st'.0 ≡ st.0
  sessions : st'.1.sessions ≡ st.1.sessions
  conns : st'.1.conn_to_player ≡ st.1.conn_to_player
  queue : st'.1.match_queue ≡ st.1.match_queue
  rooms : st'.1.rooms ≡ st.1.rooms
  match_timer : st'.1.match_timer ≡ st.1.match_timer

untouched : (conn : ℕ) (st : State) → Untouched st (reject_login conn st)
untouched conn (w, l) = record {
  wheel = refl;
  sessions = refl;
  conns = refl;
  queue = refl;
  rooms = refl;
  match_timer = refl;
}

same_token_lem : (t u : Token) → same_token t u ≡ true → (t.0 ≡ u.0) × (t.1 ≡ u.1)
same_token_lem (a, b) (c, d) h = (ground (arith, h), ground (arith, h))

-- What a client must know to take over a session, and that nobody else holds it.
abbrev pub Entitled : ℕ → Token → Lobby → Type 0
Entitled pid token l =
    (s : Session) × (lookup pid l.sessions ≡ some s)
    × (s.conn ≡ none)
    × (s.token.0 ≡ token.0)
    × (s.token.1 ≡ token.1)

free_cases :
    (o : Option ℕ) (b : Bool) (conn : ℕ) (s : Session) (st : State)
    → Untouched st (resume_free o b conn s st) ⊎ ((o ≡ none) × (b ≡ true))
free_cases none true conn s st = inr (refl, refl)
free_cases none false conn s st = inl (untouched conn st)
free_cases (some c) b conn s st = inl (untouched conn st)

found_cases :
    (o : Option Session) (conn pid : ℕ) (token : Token) (st : State)
    → lookup pid st.1.sessions ≡ o
    → Untouched st (resume_found conn token o st) ⊎ Entitled pid token st.1
found_cases none conn pid token st e = inl (untouched conn st)
found_cases (some s) conn pid token st e =
    elim (free_cases s.conn (same_token s.token token) conn s st) [
      | inl u ↦ inl u
      | inr (off, t) ↦ let (h, k) = same_token_lem s.token token t in inr (s, e, off, h, k)
    ]

-- A reconnection changes the sessions, the connections, the queue, the rooms or the timers only if it
-- names a session that no connection holds, with both halves of the token that was given out for it.
pub on_reconnect-Entitled :
    (conn pid : ℕ) (token : Token) (st : State)
    → Untouched st (on_reconnect conn pid token st) ⊎ Entitled pid token st.1
unfolding on_reconnect
on_reconnect-Entitled conn pid token (w, l) =
    found_cases (lookup pid l.sessions) conn pid token (w, l) refl
