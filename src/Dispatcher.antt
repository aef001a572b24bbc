-- ===== src/Dispatcher.antt =====
-- proto/Dispatcher.h: the table from message ids to handlers. A handler is its number, registered for a
-- type of message, a number too. The parser of protobuf is a parameter: from the type and the bytes to
-- the message, if they parse.
pub mod Latest
mod Tests
use my_game_server.Base.{
  ℕ, ◌==◌, if◌then◌else◌, Bool, true, false, List, [], ◌∷◌, Option, none, some,
}
use my_game_server.Base.Map
use my_game_server.Base.Map.{Map}

pub record Dispatcher : Type 0 where
  pub handlers : Map (ℕ × ℕ)
  pub has_default : Bool

abbrev pub fresh : Dispatcher
fresh = record { handlers = []; has_default = false }

-- A message of the type `M` in `handles`, the id in `defaults`.
pub data Call (M : Type 0) : Type 0 where
  handles : ℕ → M → Call M
  defaults : ℕ → Call M

-- `registerHandler<M>(msgId, h)`.
unfoldable pub register_handler : ℕ → ℕ → ℕ → Dispatcher → Dispatcher
register_handler msg_id type h d = record d { handlers = Map.insert msg_id (type, h) d.handlers }

unfoldable pub set_default_handler : Dispatcher → Dispatcher
set_default_handler d = record d { has_default = true }

module _ {M : Type 0} (parse : ℕ → List ℕ → Option M) where
  abbrev pub call_default : Bool → ℕ → List (Call M)
  call_default true id = defaults id ∷ []
  call_default false id = []

  abbrev pub call_parsed : Option M → ℕ → ℕ → Dispatcher → List (Call M)
  call_parsed (some m) h id d = handles h m ∷ []
  call_parsed none h id d = call_default d.has_default id

  abbrev pub call_found : Option (ℕ × ℕ) → ℕ → List ℕ → Dispatcher → List (Call M)
  call_found none id bytes d = call_default d.has_default id
  call_found (some (type, h)) id bytes d = call_parsed (parse type bytes) h id d

  -- `onRawMessage`: the callbacks that are called.
  unfoldable pub on_raw_message : ℕ → List ℕ → Dispatcher → List (Call M)
  on_raw_message id bytes d = call_found (Map.lookup id d.handlers) id bytes d
