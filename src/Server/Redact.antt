-- ===== src/Server/Redact.antt =====
-- internal/server/redact.go: what the API shows of a configuration. A path and a query are walked,
-- so they are code points here; `url.Parse` and `(*URL).String` are parameters.
pub mod Shape
pub mod Structure
pub mod Hidden
pub mod Served
pub mod Message
mod Tests
use nephtys.Prelude.{
  ℕ, String, Bool, true, false, Option, none, some, List, [], ◌∷◌, ◌++◌, ◌&&◌, not, ◌==◌,
  if◌then◌else◌, is_empty, map,
}
use nephtys.Prelude.Text.{codes, is_blank}
use nephtys.Domain.Config.{
  Headers, WebhookConfig, SseConfig, RestPollerConfig, WebsocketConfig, StreamSourceConfig,
}
use nephtys.Host.{Url}
use nephtys.Host.Text.{Text, split, join, cut}

-- "[REDACTED]", as a text and as its code points
abbrev pub redacted_value : String
redacted_value = "[REDACTED]"

abbrev pub redacted : Text
redacted = codes redacted_value

unfoldable pub withhold_segment : Text → Text
withhold_segment segment = if is_empty segment then segment else redacted

unfoldable pub is_root : Text → Bool
is_root [] = true
is_root (c ∷ s) = c == b'/' && is_empty s

unfoldable pub redact_path_segments : Text → Text
unfolding withhold_segment is_root
redact_path_segments path =
    if is_root path then path else join b'/' (map withhold_segment (split b'/' path))

abbrev pub withhold_value : Text → Text × Option Text → Text
withhold_value param (key, some value) = key ++ b'=' ∷ redacted
withhold_value param (key, none) = if is_empty param then param else redacted

unfoldable pub withhold_param : Text → Text
withhold_param param = withhold_value param (cut b'=' param)

unfoldable pub redact_query_values : Text → Text
unfolding withhold_param
redact_query_values raw_query =
    if is_empty raw_query then [] else join b'&' (map withhold_param (split b'&' raw_query))

-- What redactURL leaves of a parsed URL.
unfoldable pub redact_parsed : Url → Url
unfolding redact_path_segments redact_query_values
redact_parsed u = record u {
  user = none;
  path = redact_path_segments u.path;
  raw_path = redact_path_segments u.path;
  raw_query = redact_query_values u.raw_query;
  fragment = "";
}

unfoldable pub redact_headers : Headers → Headers
redact_headers [] = []
redact_headers ((name, value) ∷ rest) = (name, redacted_value) ∷ redact_headers rest

unfoldable pub redact_frames : List String → List String
redact_frames [] = []
redact_frames (frame ∷ rest) = redacted_value ∷ redact_frames rest

unfoldable pub redact_token : WebhookConfig → WebhookConfig
redact_token c = if is_blank c.auth_token then c else record c { auth_token = redacted_value }

abbrev pub redact_webhook : Option WebhookConfig → Option WebhookConfig
redact_webhook none = none
redact_webhook (some c) = some (redact_token c)

abbrev pub redact_sse : Option SseConfig → Option SseConfig
redact_sse none = none
redact_sse (some c) = some (record c { headers = redact_headers c.headers })

abbrev pub redact_rest_poller : Option RestPollerConfig → Option RestPollerConfig
redact_rest_poller none = none
redact_rest_poller (some c) = some (record c { headers = redact_headers c.headers })

abbrev pub redact_websocket : Option WebsocketConfig → Option WebsocketConfig
redact_websocket none = none
redact_websocket (some c) = some (record { on_connect_send = redact_frames c.on_connect_send })

abbrev pub shown : (Url → String) → Option Url → String
shown show_url none = redacted_value
shown show_url (some u) = show_url (redact_parsed u)

module _ (parse_url : String → Option Url) (show_url : Url → String) where
  unfoldable pub redact_url : String → String
  unfolding redact_parsed
  redact_url raw = if is_blank raw then raw else shown show_url (parse_url raw)

  unfoldable pub redact_config : StreamSourceConfig → StreamSourceConfig
  unfolding redact_url redact_token redact_headers redact_frames
  redact_config cfg = record cfg {
    url = redact_url cfg.url;
    webhook = redact_webhook cfg.webhook;
    sse = redact_sse cfg.sse;
    rest_poller = redact_rest_poller cfg.rest_poller;
    websocket = redact_websocket cfg.websocket;
  }
