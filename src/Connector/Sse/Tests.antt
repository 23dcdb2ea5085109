-- ===== src/Connector/Sse/Tests.antt =====
-- Two lines of data.
use nephtys.Prelude.{◌≡◌, refl, Bool, false, [], ◌∷◌, ◌++◌, map, ◌==◌}
use nephtys.Domain.Event.{Bytes}
use nephtys.Connector.Sse.{Codec, read_loop}
use nephtys.Connector.Sse.Framing.{data_line, joined, published_as, block_published}

-- Here what starts with a brace is JSON.
abbrev is_object : Bytes → Bool
is_object [] = false
is_object (b ∷ bs) = b == b'{'

abbrev codec : Codec
codec = record { valid = is_object; wrap = λ b. b'{' ∷ b; trim_space = λ b. b }

block_published_example :
    read_loop codec
      (data_line (b'a' ∷ []) ∷ (map data_line ((b'b' ∷ []) ∷ []) ++ [] ∷ []))
      (record { current_event = []; current_data = []; published = [] })
    ≡ record {
      current_event = [];
      current_data = [];
      published = [] ++ published_as codec [] (joined (b'a' ∷ []) ((b'b' ∷ []) ∷ [])) ∷ [];
    }
block_published_example = block_published codec [] (b'a' ∷ []) ((b'b' ∷ []) ∷ []) [] refl
