-- ===== src/Dispatcher/Tests.antt =====
-- proto/Dispatcher.h: a handler that is replaced; a parser that takes one byte.
use my_game_server.Base.{ℕ, List, [], ◌∷◌, Option, none, some, ◌≡◌}
use my_game_server.Base.Map.{lookup}
use my_game_server.Dispatcher.{fresh, handles, set_default_handler, on_raw_message}
use my_game_server.Dispatcher.Latest.{Registration, register_all, latest, on_raw_message-latest}

abbrev one_byte : ℕ → List ℕ → Option ℕ
one_byte type [] = none
one_byte type (x ∷ xs) = some x

abbrev twice : List Registration
twice = (1, (10, 100)) ∷ (2, (10, 200)) ∷ (1, (20, 300)) ∷ []

latest_runs :
    on_raw_message one_byte 1 (65 ∷ []) (register_all twice (set_default_handler fresh))
    ≡ handles 300 65 ∷ []
unfolding latest lookup set_default_handler
latest_runs = on_raw_message-latest one_byte twice (set_default_handler fresh) 1 (65 ∷ [])
