-- ===== src/Bot/Track.antt =====
-- examples/bot_client.cc: what a client knows of a battle from the messages that it hears.
use my_game_server.Base.{
  ℕ, ltb, not, ◌&&◌, ◌==◌, if◌then◌else◌, Bool, true, false, List, [], ◌∷◌, Option, none, some, map,
  ◌≡◌, refl, arith, if_true, if_false, Bool-cases, inl, inr, ap, ◌∙◌, sym,
}
use my_game_server.BattleSim.Defs.{Floats, Input}
use my_game_server.Room.Defs.{Snapshot, Message, enter_room, snapshot, battle_end}
use my_game_server.Bot.{
  Bot, Heard, login_resp, of_room, Act, merge_snapshot, on_message, beat, fight, send_input, act,
  since, is_done, go_on, listen, turn, turns,
}
use my_game_server.Bot.Steer.{decide}

module _ (fl : Floats) where
  open fl use {Float}

  -- Whether `main` returned, and what the client has seen.
  pub record Watch : Type 0 where
    pub over : Bool
    pub world : Snapshot fl

  abbrev pub watching : Bot fl → Watch
  watching b = record { over = is_done b.done; world = b.world }

  abbrev pub see_open : Message fl → Watch → Watch
  see_open (enter_room id ids) w = record w { over = id == 0 }
  see_open (snapshot s) w = record w { world = merge_snapshot fl s w.world }
  see_open (battle_end winner) w = record w { over = true }

  abbrev pub see : Message fl → Watch → Watch
  see m w = if w.over then w else see_open m w

  unfoldable pub sees : List (Message fl) → Watch → Watch
  sees [] w = w
  sees (m ∷ ms) w = sees ms (see m w)

  -- The messages that the rounds of the loop read.
  unfoldable pub heard : List (ℕ × Option (Heard fl)) → List (Heard fl)
  heard [] = []
  heard ((now, none) ∷ ts) = heard ts
  heard ((now, some h) ∷ ts) = h ∷ heard ts

  send_input-watching :
      (make : Option (ℕ → Input fl)) (b : Bot fl) → watching (send_input fl make b).0 ≡ watching b
  send_input-watching none b = refl
  send_input-watching (some make) b = refl

  fight-watching : (now : ℕ) (b : Bot fl) → watching (fight fl now b).0 ≡ watching b
  unfolding fight
  fight-watching now b =
      elim (Bool-cases (b.in_room && (ltb 0 b.me.hp && ltb 100 (since now b.last_input_ms)))) [
        | inl go ↦ rw go (
            send_input-watching (decide fl b.me b.world.players) (record b { last_input_ms = now }))
        | inr waits ↦ rw waits refl
      ]

  act-watching : (now : ℕ) (b : Bot fl) → watching (act fl now b).0 ≡ watching b
  unfolding act beat
  act-watching now b =
      ground (arith, fight-watching now b, fight-watching now (record b { last_hb_ms = now }))

  abbrev see_heard : Heard fl → Watch → Watch
  see_heard (login_resp code pid token) w = if not (code == 0) then record w { over = true } else w
  see_heard (of_room m) w = see_open m w

  on_message-watching :
      (now : ℕ) (h : Heard fl) (b : Bot fl)
      → is_done b.done ≡ false
      → watching (on_message fl now h b).0 ≡ see_heard h (watching b)
  unfolding on_message
  on_message-watching now (login_resp code pid token) b e = ground arith
  on_message-watching now (of_room (enter_room id ids)) b e = ground arith
  on_message-watching now (of_room (snapshot s)) b e = refl
  on_message-watching now (of_room (battle_end winner)) b e = refl

  abbrev see_turn : Option (Heard fl) → Watch → Watch
  see_turn none w = w
  see_turn (some h) w = if w.over then w else see_heard h w

  listen-watching :
      (now : ℕ) (o : Option (Heard fl)) (b : Bot fl)
      → is_done b.done ≡ false
      → watching (listen fl now o b).0 ≡ see_turn o (watching b)
  listen-watching now none b e = refl
  listen-watching now (some h) b e = on_message-watching now h b e ∙ sym (if_false _ _ e)

  go_on-watching :
      (now : ℕ) (r : Bot fl × List (Act fl)) → watching (go_on fl now r).0 ≡ watching r.0
  unfolding go_on
  go_on-watching now (b, sent) = ground (arith, act-watching now b)

  turn-watching :
      (t : ℕ × Option (Heard fl)) (b : Bot fl)
      → watching (turn fl t b).0 ≡ see_turn t.1 (watching b)
  unfolding turn
  turn-watching (now, o) b = elim (Bool-cases (is_done b.done)) [
    | inl e ↦ ap (λ (r : Bot fl × List (Act fl)). watching r.0) (if_true _ _ e) ∙ over o e
    | inr e ↦
        ap (λ (r : Bot fl × List (Act fl)). watching r.0) (if_false _ _ e)
        ∙ go_on-watching now (listen fl now o b)
        ∙ listen-watching now o b e
  ]
    where
      over : (o : Option (Heard fl)) → is_done b.done ≡ true → watching b ≡ see_turn o (watching b)
      over none e = refl
      over (some h) e = sym (if_true _ _ e)

  pub turns-watching :
      (ts : List (ℕ × Option (Heard fl))) (ms : List (Message fl)) (b : Bot fl)
      → heard ts ≡ map of_room ms
      → watching (turns fl ts b) ≡ sees ms (watching b)
  unfolding turns heard sees
  turns-watching [] [] b e = refl
  turns-watching [] (m ∷ ms) b e = absurd (cc)
  turns-watching ((now, none) ∷ ts) ms b e =
      turns-watching ts ms _ e ∙ ap (sees ms) (turn-watching (now, none) b)
  turns-watching ((now, some h) ∷ ts) [] b e = absurd (cc)
  turns-watching ((now, some h) ∷ ts) (m ∷ ms) b e =
      let same : h ≡ of_room m = cc in
      let rest : heard ts ≡ map of_room ms = cc in
      turns-watching ts ms _ rest
      ∙ ap (sees ms) (turn-watching (now, some h) b ∙ ap (λ g. see_turn (some g) (watching b)) same)
