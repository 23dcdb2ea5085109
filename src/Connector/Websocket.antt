-- ===== src/Connector/Websocket.antt =====
-- internal/connector/websocket.go: the source that reads messages from a websocket. What the dial,
-- the writes and the reads answer are inputs.
pub mod Ready
pub mod Sequence
use nephtys.Prelude.{
  ℕ, zero, suc, String, Bool, true, false, Option, none, some, List, [], ◌∷◌, ◌++◌, not, ◌&&◌,
  if◌then◌else◌, ltb, is_some,
}
use nephtys.Prelude.Int.{ℤ, pos, negsuc, ltb_ℤ, pos_part}
use nephtys.Prelude.Text.{is_blank}
use nephtys.Domain.Event.{Bytes, StreamEvent, content_type_binary}
use nephtys.Domain.Config.{WebsocketConfig}
use nephtys.Connector.Payload.{Codec, pack}

pub record WebsocketSource : Type 0 where
  pub id : String
  pub url : String
  pub topic : String
  pub on_connect_send : List String

abbrev pub frames_of : Option WebsocketConfig → List String
frames_of none = []
frames_of (some cfg) = cfg.on_connect_send

unfoldable pub new_websocket_source :
    String → String → String → Option WebsocketConfig → WebsocketSource
new_websocket_source id url topic cfg = record {
  id = id;
  url = url;
  topic = topic;
  on_connect_send = frames_of cfg;
}

-- A member of a decoded object: a text, a json.Number with what its Int64 gives, or anything else.
pub data Member : Type 0 where
  text : String → Member
  number : Option ℤ → Member
  other : Member

-- A missing member is a nil value, which is no number and no text.
abbrev pub int64_from_any : Option Member → Option ℤ
int64_from_any (some (number n)) = n
int64_from_any _ = none

abbrev pub event_type : Option Member → String
event_type (some (text t)) = if is_blank t then "websocket_message" else t
event_type _ = "websocket_message"

abbrev pub positive : Option ℤ → Option ℕ
positive (some (pos (suc n))) = some (suc n)
positive _ = none

abbrev pub or_else : Option ℕ → ℕ → ℕ
or_else none fallback = fallback
or_else (some n) fallback = n

abbrev pub seq_keys : List String
seq_keys = "seq" ∷ "u" ∷ "lastUpdateId" ∷ "t" ∷ []

-- The loop over the keys, with its break.
unfoldable pub first_positive : (String → Option Member) → List String → ℕ
first_positive obj [] = 0
first_positive obj (key ∷ keys) =
    let rest = first_positive obj keys in or_else (positive (int64_from_any (obj key))) rest

pub record Metadata : Type 0 where
  pub type : String
  pub timestamp : ℕ
  pub seq : ℕ

-- The object is missing where the message does not decode to one.
unfoldable pub infer_websocket_metadata : Option (String → Option Member) → ℕ → Metadata
unfolding first_positive
infer_websocket_metadata none fallback = record {
  type = "websocket_message";
  timestamp = fallback;
  seq = 0;
}
infer_websocket_metadata (some obj) fallback = record {
  type = event_type (obj "e");
  timestamp = or_else (positive (int64_from_any (obj "E"))) fallback;
  seq = first_positive obj seq_keys;
}

-- What a message decodes to, and whether it is a binary one.
pub record Message : Type 0 where
  pub is_binary_message : Bool
  pub content : Bytes
  pub object : Option (String → Option Member)

abbrev pub binary_event : String → ℕ → Bytes → StreamEvent
binary_event id now content = record {
  source = id;
  type = "websocket_binary";
  timestamp = now;
  seq = 0;
  content_type = content_type_binary;
  payload = [];
  body_data = content;
}

abbrev pub text_event : Codec → String → Bytes → Metadata → StreamEvent
text_event codec id content meta = record {
  source = id;
  type = meta.type;
  timestamp = meta.timestamp;
  seq = meta.seq;
  content_type = "";
  payload = pack codec content;
  body_data = [];
}

unfoldable pub event_from_message : Codec → WebsocketSource → ℕ → Message → StreamEvent
unfolding pack infer_websocket_metadata
event_from_message codec w now m =
    if m.is_binary_message
    then binary_event w.id now m.content
    else text_event codec w.id m.content (infer_websocket_metadata m.object now)

-- What a session does, in order.
pub data Act : Type 0 where
  sent : String → Act
  ready : Act
  published : StreamEvent → Act

pub data RunError : Type 0 where
  dial post_connect_send connection_lost : String → RunError

-- The frames that were written, and the error of a write; a write answers an error or none.
unfoldable pub send_on_connect : List String → List (Option String) → List Act × Option String
send_on_connect [] answers = ([], none)
send_on_connect (msg ∷ msgs) (some e ∷ answers) = ([], some e)
send_on_connect (msg ∷ msgs) (none ∷ answers) =
    let (acts, error) = send_on_connect msgs answers in (sent msg ∷ acts, error)
send_on_connect (msg ∷ msgs) [] =
    let (acts, error) = send_on_connect msgs [] in (sent msg ∷ acts, error)

-- The messages up to the error that ends the connection; an error of publish is only logged.
unfoldable pub read_loop : Codec → WebsocketSource → List (ℕ × Message) → List Act
unfolding event_from_message
read_loop codec w [] = []
read_loop codec w ((now, m) ∷ ms) =
    published (event_from_message codec w now m) ∷ read_loop codec w ms

-- What a session meets: the dial, the writes, the messages, the error that ends the reads, and
-- whether the context was cancelled by then.
pub record Connection : Type 0 where
  pub dial_error : Option String
  pub writes : List (Option String)
  pub messages : List (ℕ × Message)
  pub read_error : String
  pub is_cancelled : Bool

abbrev pub connected :
    Codec → WebsocketSource → Connection → List Act × Option String → List Act × Option RunError
connected codec w c (acts, some e) = (acts, some (post_connect_send e))
connected codec w c (acts, none) = (
  acts ++ ready ∷ read_loop codec w c.messages,
  if c.is_cancelled then none else some (connection_lost c.read_error),
)

abbrev pub dialled :
    Codec → WebsocketSource → Connection → Option String → List Act × Option RunError
dialled codec w c (some e) = ([], some (dial e))
dialled codec w c none = connected codec w c (send_on_connect w.on_connect_send c.writes)

unfoldable pub run_source : Codec → WebsocketSource → Connection → List Act × Option RunError
unfolding send_on_connect read_loop
run_source codec w c = dialled codec w c c.dial_error
