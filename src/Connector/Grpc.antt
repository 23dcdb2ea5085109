-- ===== src/Connector/Grpc.antt =====
-- internal/connector/grpc.go: the source that clients stream events to. What the listener, the
-- server, the clients and the cancellation answer are inputs.
pub mod Counted
use nephtys.Prelude.{
  ℕ, zero, suc, ◌+◌, String, Bool, true, false, Option, none, some, List, [], ◌∷◌, ◌++◌,
  if◌then◌else◌,
}
use nephtys.Prelude.Text.{is_blank}
use nephtys.Prelude.Result.{Result, ok, err}
use nephtys.Domain.Event.{Bytes, StreamEvent}
use nephtys.Domain.Config.{GrpcConfig}
use nephtys.Connector.Payload.{Codec, pack}

pub record GrpcSource : Type 0 where
  pub id : String
  pub topic : String
  pub config : GrpcConfig
  pub listener : Bool  -- whether it is there
  pub server : Bool

abbrev pub or_default : Option GrpcConfig → GrpcConfig
or_default none = record { port = "50051" }
or_default (some c) = if is_blank c.port then record { port = "50051" } else c

unfoldable pub new_grpc_source : String → String → Option GrpcConfig → GrpcSource
new_grpc_source id topic config = record {
  id = id;
  topic = topic;
  config = or_default config;
  listener = false;
  server = false;
}

unfoldable pub open_source : Option String → GrpcSource → GrpcSource × Option String
open_source (some e) g = (g, some e)
open_source none g = (record g { listener = true }, none)

-- How a session ends: Serve returns, with its error, or the context is cancelled.
pub data Ending : Type 0 where
  served : Option String → Ending
  cancelled : Ending

abbrev pub end_session : Ending → Option String
end_session (served e) = e
end_session cancelled = none

-- Run: its source, its error, and whether ready was called.
unfoldable pub run_source : Ending → GrpcSource → (GrpcSource × Option String) × Bool
run_source ending g =
    if g.listener
    then ((record g { server = true }, end_session ending), true)
    else ((g, some "grpc source: Run called without a successful Open"), false)

unfoldable pub close_source : GrpcSource → GrpcSource
close_source g = record g { server = false; listener = false }

pub record EventRequest : Type 0 where
  pub type : String
  pub payload : Bytes

-- What the client's stream gives next: a request, its end, or an error.
pub data Receipt : Type 0 where
  received : ℕ → EventRequest → Receipt
  end_of_stream : Receipt
  broken : String → Receipt

abbrev pub grpc_event : Codec → String → ℕ → EventRequest → StreamEvent
grpc_event codec id now req = record {
  source = id;
  type = req.type;
  timestamp = now;
  seq = 0;
  content_type = "";
  payload = pack codec req.payload;
  body_data = [];
}

-- The events that publish was called with, and the answer: the processed count or an error.
pub record Answer : Type 0 where
  pub called_with : List StreamEvent
  pub result : Result String ℕ

abbrev pub also : StreamEvent → Answer → Answer
also event a = record a { called_with = event ∷ a.called_with }

abbrev pub unless_failed : Option String → Answer → Answer
unless_failed (some e) rest = record { called_with = []; result = err e }
unless_failed none rest = rest

-- StreamEvents on a client that sends these, where a stream that gives nothing more has broken.
unfoldable pub stream_events :
    Codec → (StreamEvent → Option String) → String → ℕ → List Receipt → Answer
unfolding pack
stream_events codec publish id count [] = record {
  called_with = [];
  result = err "transport is closing";
}
stream_events codec publish id count (end_of_stream ∷ rs) = record {
  called_with = [];
  result = ok count;
}
stream_events codec publish id count (broken e ∷ rs) = record { called_with = []; result = err e }
stream_events codec publish id count (received now req ∷ rs) =
    let event = grpc_event codec id now req in
    let rest = stream_events codec publish id (count + 1) rs in
    also event (unless_failed (publish event) rest)
