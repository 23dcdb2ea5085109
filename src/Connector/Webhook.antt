-- ===== src/Connector/Webhook.antt =====
-- internal/connector/webhook.go: the source that receives events over HTTP. What the listener, the
-- server and the cancellation answer are inputs; the calls that reach them are a log.
pub mod Accepted
pub mod Released
use nephtys.Prelude.{
  ℕ, zero, suc, String, Bool, true, false, Option, none, some, List, [], ◌∷◌, ◌++◌, ◌==◌, ◌&&◌, ◌+◌,
  not, if◌then◌else◌, is_empty,
}
use nephtys.Prelude.Text.{str_eq, is_blank, append}
use nephtys.Domain.Event.{Bytes, StreamEvent}
use nephtys.Domain.Config.{WebhookConfig}
use nephtys.Connector.Payload.{Codec, pack}

-- A call that concerns a listener, by the serial of the listener: Listen, Serve of a server on it,
-- Shutdown and Close of the server that serves it, its own Close. Shutdown and Close of an
-- http.Server close the listener that it serves.
pub data Call : Type 0 where
  listen serve shut_down close_server close_listener : ℕ → Call

pub record WebhookSource : Type 0 where
  pub id : String
  pub topic : String
  pub config : WebhookConfig
  pub listener : Option ℕ
  pub server : Option ℕ  -- the listener that it was started on
  pub opened : ℕ  -- how many listeners there were, and the serial of the next
  pub calls : List Call

abbrev pub or_port : WebhookConfig → WebhookConfig
or_port c = if is_blank c.port then record c { port = "8081" } else c

abbrev pub or_path : WebhookConfig → WebhookConfig
or_path c = if is_blank c.path then record c { path = "/webhook" } else c

-- `strings.HasPrefix(path, "/")`
unfoldable pub is_rooted : String → Bool
is_rooted String.[] = false
is_rooted (String.◌∷◌ c s) = str_eq (String.◌∷◌ c String.[]) "/"

abbrev pub rooted : WebhookConfig → WebhookConfig
rooted c = if is_rooted c.path then c else record c { path = append "/" c.path }

abbrev pub or_default : Option WebhookConfig → WebhookConfig
or_default none = record { port = "8081"; path = "/webhook"; auth_token = "" }
or_default (some c) = c

unfoldable pub new_webhook_source : String → String → Option WebhookConfig → WebhookSource
unfolding is_rooted
new_webhook_source id topic config = record {
  id = id;
  topic = topic;
  config = rooted (or_path (or_port (or_default config)));
  listener = none;
  server = none;
  opened = 0;
  calls = [];
}

abbrev pub note : Call → WebhookSource → WebhookSource
note call w = record w { calls = w.calls ++ call ∷ [] }

-- Open, with what Listen answers.
unfoldable pub open_source : Option String → WebhookSource → WebhookSource × Option String
open_source (some e) w = (w, some e)
open_source none w =
    let bound = note (listen w.opened) w in
    (record bound { listener = some w.opened; opened = w.opened + 1 }, none)

-- Shutdown of a server, with what it answers: whether the grace period was enough.
unfoldable pub shutdown : Bool → Option ℕ → WebhookSource → WebhookSource
shutdown in_time none w = w
shutdown in_time (some srv) w =
    if in_time then note (shut_down srv) w else note (close_server srv) (note (shut_down srv) w)

-- How a session ends: the server fails, or was closed, or the context is cancelled.
pub data Ending : Type 0 where
  failed : String → Ending
  server_closed : Ending
  cancelled : Bool → Ending

-- The end of a session of the server.
abbrev pub end_session : Ending → ℕ → WebhookSource → WebhookSource × Option String
end_session (failed e) srv w = (w, some e)
end_session server_closed srv w = (w, none)
end_session (cancelled in_time) srv w = (shutdown in_time (some srv) w, none)

-- A session on the listener, if the source has one.
abbrev pub run_on : Option ℕ → Ending → WebhookSource → (WebhookSource × Option String) × Bool
run_on none ending w = ((w, some "webhook source: Run called without a successful Open"), false)
run_on (some lis) ending w =
    (end_session ending lis (record (note (serve lis) w) { server = some lis }), true)

-- Run: its source, its error, and whether ready was called.
unfoldable pub run_source : Ending → WebhookSource → (WebhookSource × Option String) × Bool
unfolding shutdown
run_source ending w = run_on w.listener ending w

-- The listener is closed here whether or not the server closed it already.
abbrev pub release : Option ℕ → WebhookSource → WebhookSource
release none w = w
release (some lis) w = record (note (close_listener lis) w) { listener = none }

unfoldable pub close_source : Bool → WebhookSource → WebhookSource
unfolding shutdown
close_source in_time w = let w' = shutdown in_time w.server w in release w'.listener w'

-- A request: the body is missing where it could not be read or is too large.
pub record Request : Type 0 where
  pub method : String
  pub authorization : String
  pub body : Option Bytes

abbrev pub expected : WebhookConfig → String
expected config = append "Bearer " config.auth_token

abbrev pub is_authorized : WebhookConfig → Request → Bool
is_authorized config req =
    if is_blank config.auth_token then true else str_eq req.authorization (expected config)

abbrev pub webhook_event : Codec → String → ℕ → Bytes → StreamEvent
webhook_event codec id now body = record {
  source = id;
  type = "webhook_recv";
  timestamp = now;
  seq = 0;
  content_type = "";
  payload = pack codec body;
  body_data = [];
}

-- The event that publish was called with, and the status of the response.
abbrev pub answer : Option String → StreamEvent → Option StreamEvent × ℕ
answer none event = (some event, 202)
answer (some e) event = (some event, 500)

abbrev pub receive :
    Codec
    → (String → StreamEvent → Option String)
    → WebhookSource
    → ℕ
    → Option Bytes
    → Option StreamEvent × ℕ
receive codec publish w now none = (none, 400)
receive codec publish w now (some body) =
    if is_empty body
    then (none, 400)
    else let event = webhook_event codec w.id now body in answer (publish w.topic event) event

unfoldable pub handle_webhook :
    Codec
    → (String → StreamEvent → Option String)
    → WebhookSource
    → ℕ
    → Request
    → Option StreamEvent × ℕ
unfolding pack
handle_webhook codec publish w now req =
    if not (str_eq req.method "POST")
    then (none, 405)
    else if not (is_authorized w.config req)
    then (none, 401)
    else receive codec publish w now req.body
