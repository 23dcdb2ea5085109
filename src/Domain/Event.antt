-- ===== src/Domain/Event.antt =====
-- internal/domain/event.go: the event envelope and the status of a source. Payloads are lists of
-- bytes; a missing payload (`nil`) is the empty list, as `len` sees it.
use nephtys.Prelude.{ℕ, String, Bool, List, not, ◌&&◌, if◌then◌else◌}
use nephtys.Prelude.Text.{str_eq, is_blank}

abbrev pub Bytes : Type 0
Bytes = List ℕ

abbrev pub content_type_json : String
content_type_json = "application/json"

abbrev pub content_type_arrow_stream : String
content_type_arrow_stream = "application/vnd.apache.arrow.stream"

abbrev pub content_type_binary : String
content_type_binary = "application/octet-stream"

pub record StreamEvent : Type 0 where
  pub source : String
  pub type : String
  pub timestamp : ℕ
  pub seq : ℕ
  pub content_type : String
  pub payload : Bytes
  pub body_data : Bytes

unfoldable pub is_binary : StreamEvent → Bool
is_binary e = not (is_blank e.content_type) && not (str_eq e.content_type content_type_json)

unfoldable pub body : StreamEvent → Bytes
unfolding is_binary
body e = if is_binary e then e.body_data else e.payload

pub data SourceStatus : Type 0 where
  idle connecting running reconnecting stopped error : SourceStatus
