-- ===== src/Broker/Connection.antt =====
-- internal/broker/nats.go: the connection, the JetStream stream that holds the events, and what the
-- probes ask. The client of NATS answers; the server's streams are an interface.
use nephtys.Prelude.{◌*◌, ◌^◌, String, Bool, true, false, Option, none, some, List, not, is_some}
use nephtys.Prelude.Int.{ℤ, pos}
use nephtys.Prelude.Result.{Result, ok, err}

pub record Config : Type 0 where
  pub stream_max_age : ℤ
  pub stream_max_bytes : ℤ

-- 72 hours.
abbrev pub default_config : Config
default_config = record { stream_max_age = pos (72 * 3600 * 10 ^ 9); stream_max_bytes = pos 0 }

pub data BrokerError : Type 0 where
  nats_connect jet_stream_init : String → BrokerError
  inspect_stream create_stream update_stream : String → String → BrokerError

-- A connection, as the settings that were taken and whether it is open.
pub record Broker : Type 0 where
  pub config : Config

-- Connect, with what the dial and JetStream answer: whether the connection was closed again, and
-- the broker.
unfoldable pub connect : Option String → Option String → Config → Bool × Result BrokerError Broker
connect (some e) js config = (false, err (nats_connect e))
connect none (some e) config = (true, err (jet_stream_init e))
connect none none config = (false, ok (record { config = config }))

pub data Retention : Type 0 where
  limits_policy : Retention

pub data Storage : Type 0 where
  file_storage : Storage

pub record StreamConfig : Type 0 where
  pub name : String
  pub subjects : List String
  pub retention : Retention
  pub storage : Storage
  pub max_age : ℤ
  pub max_bytes : ℤ

-- What StreamInfo answers.
pub data Info : Type 0 where
  found stream_not_found : Info
  failed : String → Info

-- The streams of the server.
pub record JetStream : Type 1 where
  pub State : Type 0
  pub stream_info : String → State → Info
  pub add_stream : StreamConfig → State → Result String State
  pub update_stream : StreamConfig → State → Result String State

abbrev pub stream_config : Broker → String → List String → StreamConfig
stream_config b name subjects = record {
  name = name;
  subjects = subjects;
  retention = limits_policy;
  storage = file_storage;
  max_age = b.config.stream_max_age;
  max_bytes = b.config.stream_max_bytes;
}

abbrev pub or_error : {S : Type 0} → (String → BrokerError) → Result String S → Result BrokerError S
or_error wrap (ok s) = ok s
or_error wrap (err e) = err (wrap e)

module _ (js : JetStream) where
  abbrev pub ensured : StreamConfig → Info → js.State → Result BrokerError js.State
  ensured cfg (failed e) s = err (inspect_stream cfg.name e)
  ensured cfg stream_not_found s = or_error (create_stream cfg.name) (js.add_stream cfg s)
  ensured cfg found s = or_error (update_stream cfg.name) (js.update_stream cfg s)

  unfoldable pub ensure_stream :
      Broker → String → List String → js.State → Result BrokerError js.State
  ensure_stream b name subjects s =
      ensured (stream_config b name subjects) (js.stream_info name s) s

-- `nats.Status`
pub data Status : Type 0 where
  connected connecting reconnecting disconnected closed draining_subs draining_pubs : Status
  unknown_status : Status

abbrev pub status_name : Status → String
status_name connected = "CONNECTED"
status_name connecting = "CONNECTING"
status_name reconnecting = "RECONNECTING"
status_name disconnected = "DISCONNECTED"
status_name closed = "CLOSED"
status_name draining_subs = "DRAINING_SUBS"
status_name draining_pubs = "DRAINING_PUBS"
status_name unknown_status = "unknown status"

abbrev pub is_connected_status : Status → Bool
is_connected_status connected = true
is_connected_status _ = false

unfoldable pub conn_ready : Status → Bool × String
conn_ready status = (is_connected_status status, status_name status)

-- With the error of AccountInfo.
unfoldable pub jet_stream_available : Option String → Bool
jet_stream_available e = not (is_some e)
