-- ===== src/Lobby/Inv.antt =====
-- game/GameServer.cc: the invariant of the lobby, and what it takes to keep it.
use my_game_server.Base.{
  ℕ, ◌<◌, ◌==◌, true, false, if◌then◌else◌, Bool, Option, none, some, ◌≡◌, refl, sym, ap, subst,
  ◌∙◌, inl, inr, Bool-cases, ==→eq, ==→ne, ==_self, ◌≢◌,
}
use my_game_server.Base.Map.{Map, lookup, insert, lookup-insert}
use my_game_server.MatchQueue.{MatchQueue, contains}
use my_game_server.MatchQueue.Line.{IsValid}
use my_game_server.Lobby.Defs.{Stage, in_lobby, matching, in_room, Session, Lobby}

abbrev pub is_matching : Stage → Bool
is_matching in_lobby = false
is_matching matching = true
is_matching in_room = false

abbrev pub is_waiting : Option Session → Bool
is_waiting none = false
is_waiting (some s) = is_matching s.stage

abbrev pub conn_is : ℕ → Option ℕ → Bool
conn_is c none = false
conn_is c (some d) = c == d

abbrev pub is_bound : ℕ → Option Session → Bool
is_bound c none = false
is_bound c (some s) = conn_is c s.conn

abbrev pub is_online : Option ℕ → Bool
is_online none = false
is_online (some c) = true

-- Who is not in a room has no room; who waits is online.
abbrev pub Orderly : Stage → ℕ → Option ℕ → Type 0
Orderly in_lobby room conn = room ≡ 0
Orderly matching room conn = (room ≡ 0) × (is_online conn ≡ true)
Orderly in_room room conn = Unit

abbrev pub Good : ℕ → ℕ → Session → Type 0
Good n j s = (s.player_id ≡ j) × (j < n) × Orderly s.stage s.room_id s.conn

abbrev pub Each : ℕ → Map Session → Type 0
Each n m = (j : ℕ) (s : Session) → lookup j m ≡ some s → Good n j s

abbrev pub Bound : Map ℕ → Map Session → Type 0
Bound cs m = (c p : ℕ) → lookup c cs ≡ some p → is_bound c (lookup p m) ≡ true

abbrev pub Queued : MatchQueue → Map Session → Type 0
Queued q m = (j : ℕ) → contains q j ≡ is_waiting (lookup j m)

-- A session stands under its player's id; a connection leads to a session that is bound to it; the
-- queue holds exactly the players whose sessions are in matching.
pub record Sound (n : ℕ) (cs : Map ℕ) (m : Map Session) (q : MatchQueue) : Type 0 where
  pub each : Each n m
  pub bound : Bound cs m
  pub queued : Queued q m
  pub valid : IsValid q

abbrev pub IsSound : Lobby → Type 0
IsSound l = Sound l.next_player_id l.conn_to_player l.sessions l.match_queue

pub Each-insert :
    (n pid : ℕ) (s : Session) (m : Map Session) → Each n m → Good n pid s → Each n (insert pid s m)
Each-insert n pid s m each good j t e = elim (Bool-cases (pid == j)) [
  | inl same ↦
      let f : some s ≡ some t = sym (rw same at (lookup-insert pid j s m)) ∙ e in
      subst (λ i. Good n i t) (==→eq pid j same) (subst (Good n pid) (some_inj s t f) good)
  | inr other ↦ each j t (sym (rw other at (lookup-insert pid j s m)) ∙ e)
]
  where
    some_inj : (a b : Session) → some a ≡ some b → a ≡ b
    some_inj a b e = cc

pub Queued-insert :
    (q q' : MatchQueue) (pid : ℕ) (s : Session) (m : Map Session)
    → Queued q m
    → ((j : ℕ) → contains q' j ≡ (if pid == j then is_matching s.stage else contains q j))
    → Queued q' (insert pid s m)
Queued-insert q q' pid s m h k j = elim (Bool-cases (pid == j)) [
  | inl same ↦ (rw same at (k j)) ∙ ap is_waiting (sym (rw same at (lookup-insert pid j s m)))
  | inr other ↦
      (rw other at (k j)) ∙ (h j ∙ ap is_waiting (sym (rw other at (lookup-insert pid j s m))))
]

pub Bound-insert :
    (cs : Map ℕ) (pid : ℕ) (s : Session) (m : Map Session)
    → ((c p : ℕ) → lookup c cs ≡ some p → (pid == p) ≡ false → is_bound c (lookup p m) ≡ true)
    → ((c : ℕ) → lookup c cs ≡ some pid → conn_is c s.conn ≡ true)
    → Bound cs (insert pid s m)
Bound-insert cs pid s m h k c p e = elim (Bool-cases (pid == p)) [
  | inl same ↦
      ap (is_bound c) (rw same at (lookup-insert pid p s m))
      ∙ k c (subst (λ i. lookup c cs ≡ some i) (sym (==→eq pid p same)) e)
  | inr other ↦ ap (is_bound c) (rw other at (lookup-insert pid p s m)) ∙ h c p e other
]

pub Queued-same :
    (q : MatchQueue) (m : Map Session) (pid : ℕ) (s : Session) (g : Stage)
    → Queued q m
    → lookup pid m ≡ some s
    → g ≡ s.stage
    → (j : ℕ) → contains q j ≡ (if pid == j then is_matching g else contains q j)
Queued-same q m pid s g h e stage j = elim (Bool-cases (pid == j)) [
  | inl same ↦ rw same (
      subst (λ i. contains q i ≡ is_matching g) (==→eq pid j same)
        (h pid ∙ (ap is_waiting e ∙ ap is_matching (sym stage))))
  | inr other ↦ rw other refl
]

-- A session that keeps its id, its connection and its stage.
pub same-Sound :
    (n : ℕ) (cs : Map ℕ) (m : Map Session) (q : MatchQueue) (pid : ℕ) (s s' : Session)
    → Sound n cs m q
    → lookup pid m ≡ some s
    → Good n pid s'
    → s'.conn ≡ s.conn
    → s'.stage ≡ s.stage
    → Sound n cs (insert pid s' m) q
same-Sound n cs m q pid s s' v e good conn stage = record {
  each = Each-insert n pid s' m v.each good;
  bound =
      Bound-insert cs pid s' m (λ c p f g. v.bound c p f)
        (λ c f. ap (conn_is c) conn ∙ (sym (ap (is_bound c) e) ∙ v.bound c pid f));
  queued = Queued-insert q q pid s' m v.queued (Queued-same q m pid s s'.stage v.queued e stage);
  valid = v.valid;
}

-- A session that a connection is bound to.
pub Bound-bind :
    (cs : Map ℕ) (conn pid : ℕ) (s : Session) (m : Map Session)
    → Bound cs m
    → s.conn ≡ some conn
    → ((c : ℕ) → lookup c cs ≢ some pid)
    → Bound (insert conn pid cs) (insert pid s m)
Bound-bind cs conn pid s m v here free = Bound-insert (insert conn pid cs) pid s m others own
  where
    others :
        (c p : ℕ)
        → lookup c (insert conn pid cs) ≡ some p
        → (pid == p) ≡ false
        → is_bound c (lookup p m) ≡ true
    others c p e g = elim (Bool-cases (conn == c)) [
      | inl same ↦
          let f : some pid ≡ some p = sym (rw same at (lookup-insert conn c pid cs)) ∙ e in
          let h : pid ≡ p = cc in absurd (==→ne pid p g h)
      | inr other ↦ v c p (sym (rw other at (lookup-insert conn c pid cs)) ∙ e)
    ]

    own : (c : ℕ) → lookup c (insert conn pid cs) ≡ some pid → conn_is c s.conn ≡ true
    own c e = elim (Bool-cases (conn == c)) [
      | inl same ↦ ap (conn_is c) here ∙ ap (λ i. c == i) (==→eq conn c same) ∙ ==_self c
      | inr other ↦ absurd (free c (sym (rw other at (lookup-insert conn c pid cs)) ∙ e))
    ]
