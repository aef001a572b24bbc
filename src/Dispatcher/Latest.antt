-- ===== src/Dispatcher/Latest.antt =====
-- proto/Dispatcher.h: which handler a message reaches after a number of registrations.
use my_game_server.Base.{
  ℕ, ◌==◌, if◌then◌else◌, Bool, true, false, List, [], ◌∷◌, Option, none, some, ◌≡◌, refl, ap, ◌∙◌,
}
use my_game_server.Base.Map.{lookup, lookup-insert}
use my_game_server.Dispatcher.{
  Dispatcher, Call, handles, defaults, register_handler, call_default, call_parsed, call_found,
  on_raw_message,
}

-- A registration: the id, the type and the handler.
abbrev pub Registration : Type 0
Registration = ℕ × (ℕ × ℕ)

unfoldable pub register_all : List Registration → Dispatcher → Dispatcher
register_all [] d = d
register_all ((id, (type, h)) ∷ rs) d = register_all rs (register_handler id type h d)

-- The last registration for an id, or what there was.
unfoldable pub latest : ℕ → List Registration → Option (ℕ × ℕ) → Option (ℕ × ℕ)
latest id [] old = old
latest id ((j, r) ∷ rs) old = latest id rs (if j == id then some r else old)

lookup-register_all :
    (rs : List Registration) (d : Dispatcher) (id : ℕ)
    → lookup id (register_all rs d).handlers ≡ latest id rs (lookup id d.handlers)
unfolding register_all latest register_handler
lookup-register_all [] d id = refl
lookup-register_all ((j, (type, h)) ∷ rs) d id =
    lookup-register_all rs (register_handler j type h d) id
    ∙ ap (latest id rs) (lookup-insert j id (type, h) d.handlers)

default-register_all :
    (rs : List Registration) (d : Dispatcher) → (register_all rs d).has_default ≡ d.has_default
unfolding register_all register_handler
default-register_all [] d = refl
default-register_all ((j, (type, h)) ∷ rs) d = default-register_all rs (register_handler j type h d)

module _ {M : Type 0} (parse : ℕ → List ℕ → Option M) where
  -- What is expected: the handler of the last registration gets a message that parses as its type; any
  -- other message goes to the default handler, if there is one.
  abbrev expected : Option (ℕ × ℕ) → ℕ → List ℕ → Bool → List (Call M)
  expected none id bytes has_default = if has_default then defaults id ∷ [] else []
  expected (some (type, h)) id bytes has_default = elim (parse type bytes) [
    | none ↦ if has_default then defaults id ∷ [] else []
    | some m ↦ handles h m ∷ []
  ]

  default_called :
      (b : Bool) (id : ℕ) → call_default parse b id ≡ (if b then defaults id ∷ [] else [])
  default_called true id = refl
  default_called false id = refl

  found_called :
      (o : Option (ℕ × ℕ)) (id : ℕ) (bytes : List ℕ) (d : Dispatcher)
      → call_found parse o id bytes d ≡ expected o id bytes d.has_default
  found_called none id bytes d = default_called d.has_default id
  found_called (some (type, h)) id bytes d = by_parse (parse type bytes)
    where
      by_parse :
          (p : Option M)
          → call_parsed parse p h id d ≡ elim p [
            | none ↦ if d.has_default then defaults id ∷ [] else []
            | some m ↦ handles h m ∷ []
          ]
      by_parse none = default_called d.has_default id
      by_parse (some m) = refl

  -- After any registrations, with a default handler set or not before them, a message reaches the handler
  -- that was registered last for its id, parsed as the type of that registration; a message without
  -- registration, or whose bytes do not parse, goes to the default handler if one is set, and is dropped
  -- otherwise.
  pub on_raw_message-latest :
      (rs : List Registration) (d : Dispatcher) (id : ℕ) (bytes : List ℕ)
      → on_raw_message parse id bytes (register_all rs d)
        ≡ expected (latest id rs (lookup id d.handlers)) id bytes d.has_default
  unfolding on_raw_message
  on_raw_message-latest rs d id bytes =
      found_called (lookup id (register_all rs d).handlers) id bytes (register_all rs d)
      ∙ (ap (λ o. expected o id bytes (register_all rs d).has_default) (lookup-register_all rs d id)
          ∙ ap (expected (latest id rs (lookup id d.handlers)) id bytes)
              (default-register_all rs d))
