-- ===== src/Connector/Sse.antt =====
-- internal/connector/sse.go: the read loop of an event stream. A line is a list of bytes.
pub mod Framing
pub mod Session
mod Tests
use nephtys.Prelude.{
  ℕ, String, Bool, true, false, Option, none, some, List, [], ◌∷◌, ◌++◌, ◌==◌, if◌then◌else◌,
  is_empty,
}
use nephtys.Domain.Event.{Bytes}
pub use nephtys.Connector.Payload.{Codec}

-- What is published of an event: its type and its payload.
pub record Published : Type 0 where
  pub type : Bytes
  pub payload : Bytes

pub record Reader : Type 0 where
  pub current_event : Bytes
  pub current_data : Bytes
  pub published : List Published

abbrev pub new_reader : Reader
new_reader = record { current_event = []; current_data = []; published = [] }

-- `strings.HasPrefix` and what TrimPrefix leaves of such a text.
unfoldable pub after_prefix : Bytes → Bytes → Option Bytes
after_prefix [] line = some line
after_prefix (p ∷ ps) [] = none
after_prefix (p ∷ ps) (c ∷ cs) = let rest = after_prefix ps cs in if p == c then rest else none

abbrev pub event_prefix : Bytes
event_prefix = b'e' ∷ b'v' ∷ b'e' ∷ b'n' ∷ b't' ∷ b':' ∷ []

abbrev pub data_prefix : Bytes
data_prefix = b'd' ∷ b'a' ∷ b't' ∷ b'a' ∷ b':' ∷ []

abbrev pub sse_message : Bytes
sse_message = b's' ∷ b's' ∷ b'e' ∷ b'_' ∷ b'm' ∷ b'e' ∷ b's' ∷ b's' ∷ b'a' ∷ b'g' ∷ b'e' ∷ []

-- The single leading space.
unfoldable pub drop_space : Bytes → Bytes
drop_space [] = []
drop_space (c ∷ cs) = if c == b' ' then cs else c ∷ cs

unfoldable pub append_data : Bytes → Bytes → Bytes
append_data before content = if is_empty before then content else before ++ b'\n' ∷ content

unfoldable pub end_event : Codec → Reader → Reader
end_event codec r = if is_empty r.current_data then r else record {
  current_event = [];
  current_data = [];
  published =
      r.published
      ++ record {
        type = if is_empty r.current_event then sse_message else r.current_event;
        payload = if codec.valid r.current_data then r.current_data else codec.wrap r.current_data;
      }
        ∷ [];
}

abbrev pub take_data : Option Bytes → Reader → Reader
take_data none r = r
take_data (some content) r = record r {
  current_data = append_data r.current_data (drop_space content);
}

abbrev pub take_field : Codec → Option Bytes → Bytes → Reader → Reader
take_field codec (some name) line r = record r { current_event = codec.trim_space name }
take_field codec none line r = take_data (after_prefix data_prefix line) r

unfoldable pub read_line : Codec → Bytes → Reader → Reader
unfolding end_event after_prefix append_data drop_space
read_line codec line r =
    if is_empty line
    then end_event codec r
    else take_field codec (after_prefix event_prefix line) line r

-- The lines up to the end of the stream or to the cancellation.
unfoldable pub read_loop : Codec → List Bytes → Reader → Reader
unfolding read_line
read_loop codec [] r = r
read_loop codec (line ∷ lines) r = read_loop codec lines (read_line codec line r)
