-- ===== src/Codec/Tests.antt =====
-- proto/ProtobufCodec.cc at concrete bytes.
use my_game_server.Base.{ℕ, true, List, [], ◌∷◌, ◌++◌, some, ◌≡◌, refl, arith, ap, ◌∙◌}
use my_game_server.Buffer.{Buffer, new, append}
use my_game_server.Buffer.Valid.{IsValid, contents, new-IsValid}
use my_game_server.Buffer.Bytes.{append_lem}
use my_game_server.Codec.{
  encode, message, reject, on_message, receive, u32_bytes, u16_bytes, read_u32,
}
use my_game_server.Codec.Frame.{next}
use my_game_server.Codec.Loop.{Finished, on_message-Finished}
use my_game_server.Codec.Stream.{Message, frames, messages, receive-frames, on_message-broken}

encode_runs : encode 10 (7 ∷ 8 ∷ []) ≡ 0 ∷ 0 ∷ 0 ∷ 4 ∷ 0 ∷ 10 ∷ 7 ∷ 8 ∷ []
unfolding encode u32_bytes u16_bytes
encode_runs = refl

abbrev two : List Message
two = (10, 7 ∷ []) ∷ (300, []) ∷ []

-- The two frames cut in the middle of the first and of the second header.
abbrev chunks : List (List ℕ)
chunks = (0 ∷ 0 ∷ []) ∷ (0 ∷ 3 ∷ 0 ∷ 10 ∷ 7 ∷ 0 ∷ []) ∷ (0 ∷ 0 ∷ 2 ∷ 1 ∷ 44 ∷ []) ∷ []

receive-frames_example :
    (r : Buffer) × (receive true chunks new ≡ some (message 10 (7 ∷ []) ∷ message 300 [] ∷ [], r))
    × IsValid r
    × (contents r ≡ [])
unfolding encode u32_bytes u16_bytes
receive-frames_example = receive-frames true two chunks (omega arith) refl

-- A buffer that received one frame and then a length of 1.
abbrev spoilt : List ℕ
spoilt = frames two ++ (0 ∷ 0 ∷ 0 ∷ 1 ∷ 9 ∷ [])

spoilt_held : IsValid (append new spoilt) × (contents (append new spoilt) ≡ spoilt)
spoilt_held =
    let (w, e) = append_lem new spoilt new-IsValid.0 in (w, e ∙ ap (λ l. l ++ spoilt) new-IsValid.1)

on_message-Finished_example :
    Finished true (contents (append new spoilt)) (on_message true (append new spoilt))
on_message-Finished_example = on_message-Finished true (append new spoilt) spoilt_held.0

on_message-broken_example :
    (r : Buffer) × (on_message true (append new spoilt) ≡ some (messages two ++ reject true, r))
    × (contents r ≡ [])
unfolding next read_u32
on_message-broken_example =
    on_message-broken true two (0 ∷ 0 ∷ 0 ∷ 1 ∷ 9 ∷ []) (append new spoilt) (omega arith)
      spoilt_held.0 refl spoilt_held.1
