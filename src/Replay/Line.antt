-- ===== src/Replay/Line.antt =====
-- docs/replay/consumer.go: the line that is printed for an event, as the values that it shows.
use nephtys.Prelude.{ℕ, String, Bool, Option, none, some, not, ◌&&◌, if◌then◌else◌, length}
use nephtys.Prelude.Text.{str_eq, is_blank}
use nephtys.Domain.Event.{Bytes, content_type_json}
use nephtys.Replay.{preview}

-- `event`, which mirrors the envelope.
pub record Envelope : Type 0 where
  pub source : String
  pub type : String
  pub timestamp : ℕ
  pub seq : ℕ
  pub content_type : String
  pub payload : Bytes

-- The sequence in the stream and the time that the broker stored the message at.
pub record Position : Type 0 where
  pub sequence : ℕ
  pub stored_at : ℕ

-- A message as it comes in: a header that is missing is the empty text, or no number.
pub record Delivered : Type 0 where
  pub subject : String
  pub content : Bytes
  pub content_type : String
  pub seq : Option ℕ
  pub position : Option Position

pub data Line : Type 0 where
  no_position : String → Bytes → Line
  raw : Position → String → String → ℕ → Option ℕ → Line
  unparsed : Position → String → Bytes → Line
  event_line : Position → String → String → String → ℕ → Bytes → Line

-- `contentType != "" && contentType != contentTypeJSON`
unfoldable pub is_raw : String → Bool
is_raw ct = not (is_blank ct) && not (str_eq ct content_type_json)

-- `unmarshal` is json.Unmarshal into an event, `trim` strings.TrimSpace.
module _ (unmarshal : Bytes → Option Envelope) (trim : Bytes → Bytes) where
  abbrev pub print_decoded : Position → Delivered → Option Envelope → Line
  print_decoded p d none = unparsed p d.subject (preview (trim d.content))
  print_decoded p d (some ev) =
      event_line p d.subject ev.source ev.type ev.seq (preview (trim ev.payload))

  abbrev pub print_at : Delivered → Option Position → Line
  print_at d none = no_position d.subject (preview (trim d.content))
  print_at d (some p) =
      if is_raw d.content_type
      then raw p d.subject d.content_type (length d.content) d.seq
      else print_decoded p d (unmarshal d.content)

  unfoldable pub print_message : Delivered → Line
  unfolding is_raw
  print_message d = print_at d d.position
