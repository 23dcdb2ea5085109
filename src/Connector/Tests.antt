-- ===== src/Connector/Tests.antt =====
-- The theorems on the sources at concrete inputs.
use nephtys.Prelude.{
  ℕ, ◌≡◌, refl, String, Bool, true, false, none, some, List, [], ◌∷◌, length, All, Option,
}
use nephtys.Prelude.Result.{ok}
use nephtys.Domain.Event.{Bytes, StreamEvent}
use nephtys.Connector.Payload.{Codec}
use nephtys.Connector.Webhook.{WebhookSource, Request, new_webhook_source, cancelled}
use nephtys.Connector.Webhook.Released.{Round, rounds, bound, listeners_released}
use nephtys.Connector.RestPoller
use nephtys.Connector.RestPoller.{RestPollerSource, Exchange, answered, new_rest_poller_source}
use nephtys.Connector.Websocket
use nephtys.Connector.Websocket.{
  WebsocketSource, Message, Connection, new_websocket_source, connection_lost,
}
use nephtys.Connector.Websocket.Ready.{Session, ready_after_frames}
use nephtys.Connector.Grpc.{Receipt, received, end_of_stream, stream_events}
use nephtys.Connector.Grpc.Counted.{requested, count_is_accepted}

abbrev is_object : Bytes → Bool
is_object [] = false
is_object (b ∷ bs) = true

abbrev codec : Codec
codec = record { valid = is_object; wrap = λ b. 34 ∷ b; trim_space = λ b. b }

abbrev accepts : String → StreamEvent → Option String
accepts topic event = none

abbrev hook : WebhookSource
hook =
    new_webhook_source "hook" "events"
      (some (record { port = ""; path = "in"; auth_token = "secret" }))

abbrev post : Request
post = record { method = "POST"; authorization = "Bearer secret"; body = some (b'{' ∷ []) }

rooted_path : hook.config.path ≡ "/in"
unfolding new_webhook_source
rooted_path = refl

abbrev day : List Round
day =
    record { listen_error = some "address already in use"; ending = none; in_time = true }
    ∷ record { listen_error = none; ending = some (cancelled false); in_time = true }
    ∷ []

listeners_released_example :
    let w = rounds day (new_webhook_source "hook" "events" none) in
    (w.listener ≡ none) × (bound 0 false w.calls ≡ false)
listeners_released_example = listeners_released "hook" "events" none day 0

abbrev poller : RestPollerSource
poller = new_rest_poller_source "poll" "https://feed" "events" none

abbrev polls : List (ℕ × Exchange)
polls =
    (1, answered 503 none) ∷ (2, answered 200 (some [])) ∷ (3, answered 200 (some (7 ∷ []))) ∷ []

abbrev socket : WebsocketSource
socket =
    new_websocket_source "ws" "wss://feed" "events"
      (some (record { on_connect_send = "subscribe" ∷ [] }))

abbrev text : Message
text = record { is_binary_message = false; content = b'{' ∷ []; object = none }

abbrev connection : Connection
connection = record {
  dial_error = none;
  writes = none ∷ [];
  messages = (1, text) ∷ [];
  read_error = "reset by peer";
  is_cancelled = false;
}

ready_after_frames_example :
    Session codec socket connection false (Websocket.run_source codec socket connection)
unfolding new_websocket_source
ready_after_frames_example = ready_after_frames codec socket connection

abbrev stream : List Receipt
stream = received 1 (record { type = "trade"; payload = 7 ∷ [] }) ∷ end_of_stream ∷ []

abbrev takes : StreamEvent → Option String
takes event = none

one_counted : (stream_events codec takes "grpc" 0 stream).result ≡ ok 1
unfolding stream_events
one_counted = refl

count_is_accepted_example :
    let sent = (stream_events codec takes "grpc" 0 stream).called_with in
    (sent ≡ requested codec "grpc" stream) × (1 ≡ length sent) × All (λ e. takes e ≡ none) sent
count_is_accepted_example = count_is_accepted codec takes "grpc" stream 1 one_counted
