-- ===== src/Connector/RestPoller.antt =====
-- internal/connector/rest_poller.go: the source that asks an endpoint at intervals. What the client
-- and the endpoint answer is the input of a poll.
pub mod Ready
pub mod Opens
use nephtys.Prelude.{
  ℕ, zero, suc, ◌+◌, String, Bool, true, false, Option, none, some, List, [], ◌∷◌, ◌++◌, not, ◌||◌,
  if◌then◌else◌, is_empty, ltb, leb,
}
use nephtys.Prelude.Int.{ℤ, pos, ltb_ℤ}
use nephtys.Prelude.Text.{is_blank}
use nephtys.Prelude.Result.{Result, ok, err}
use nephtys.Domain.Event.{Bytes, StreamEvent}
use nephtys.Domain.Config.{RestPollerConfig}
use nephtys.Connector.Payload.{Codec, pack}

pub record RestPollerSource : Type 0 where
  pub id : String
  pub url : String
  pub topic : String
  pub config : RestPollerConfig
  pub interval : ℤ

abbrev pub or_interval : RestPollerConfig → RestPollerConfig
or_interval c = if is_blank c.interval then record c { interval = "1m" } else c

abbrev pub or_method : RestPollerConfig → RestPollerConfig
or_method c = if is_blank c.method then record c { method = "GET" } else c

abbrev pub or_default : Option RestPollerConfig → RestPollerConfig
or_default none = record { interval = "1m"; method = "GET"; headers = [] }
or_default (some c) = c

unfoldable pub new_rest_poller_source :
    String → String → String → Option RestPollerConfig → RestPollerSource
new_rest_poller_source id url topic config = record {
  id = id;
  url = url;
  topic = topic;
  config = or_method (or_interval (or_default config));
  interval = pos 0;
}

pub data OpenError : Type 0 where
  unparseable not_positive : String → OpenError

abbrev pub opened_at : RestPollerSource → Option ℤ → Result OpenError RestPollerSource
opened_at r none = err (unparseable r.config.interval)
opened_at r (some d) =
    if not (ltb_ℤ (pos 0) d)
    then err (not_positive r.config.interval)
    else ok (record r { interval = d })

-- Open, with time.ParseDuration.
unfoldable pub open_source :
    (String → Option ℤ) → RestPollerSource → Result OpenError RestPollerSource
open_source parse_duration r = opened_at r (parse_duration r.config.interval)

-- One request: it cannot be built, or fails, or is answered with a status and a body, which is
-- missing where it cannot be read.
pub data Exchange : Type 0 where
  unbuilt failed : String → Exchange
  answered : ℕ → Option Bytes → Exchange

pub data PollError : Type 0 where
  build_request request_failed : String → PollError
  unexpected_status : ℕ → PollError
  read_body : PollError

abbrev pub poll_event : Codec → String → ℕ → Bytes → StreamEvent
poll_event codec id now body = record {
  source = id;
  type = "rest_poller_response";
  timestamp = now;
  seq = 0;
  content_type = "";
  payload = pack codec body;
  body_data = [];
}

abbrev pub received :
    Codec → RestPollerSource → ℕ → Option Bytes → Option StreamEvent × Option PollError
received codec r now none = (none, some read_body)
received codec r now (some body) =
    if is_empty body then (none, none) else (some (poll_event codec r.id now body), none)

-- The event that is handed to publish, whose error is only logged, and the error that is returned.
unfoldable pub poll :
    Codec → RestPollerSource → ℕ → Exchange → Option StreamEvent × Option PollError
unfolding pack
poll codec r now (unbuilt e) = (none, some (build_request e))
poll codec r now (failed e) = (none, some (request_failed e))
poll codec r now (answered status body) =
    if ltb status 200 || leb 300 status
    then (none, some (unexpected_status status))
    else received codec r now body

-- A session: what it has published, whether it has reported itself ready, and how often it did.
pub record Session : Type 0 where
  pub published : List StreamEvent
  pub reported : Bool
  pub ready_calls : ℕ

abbrev pub new_session : Session
new_session = record { published = []; reported = false; ready_calls = 0 }

abbrev pub publish : Option StreamEvent → Session → Session
publish none s = s
publish (some e) s = record s { published = s.published ++ e ∷ [] }

unfoldable pub reached_endpoint : Option PollError → Session → Session
reached_endpoint (some e) s = s
reached_endpoint none s =
    if s.reported then s else record s { reported = true; ready_calls = s.ready_calls + 1 }

abbrev pub after_poll : Option StreamEvent × Option PollError → Session → Session
after_poll (event, error) s = reached_endpoint error (publish event s)

-- Run: the first poll and those of the ticks, up to the cancellation, each at its time.
unfoldable pub run_source : Codec → RestPollerSource → List (ℕ × Exchange) → Session → Session
unfolding poll reached_endpoint
run_source codec r [] s = s
run_source codec r ((now, x) ∷ xs) s = run_source codec r xs (after_poll (poll codec r now x) s)
