-- ===== src/Server/Manager/Info.antt =====
-- internal/server/manager.go: what the API reads of the streams.
use nephtys.Prelude.{ℕ, String, Option, none, some, List, [], ◌∷◌, length, ltb, if◌then◌else◌}
use nephtys.Prelude.Map.{get, bindings}
use nephtys.Prelude.Lists.{length}
use nephtys.Domain.Event.{SourceStatus, running, stopped, error, StreamEvent}
use nephtys.Domain.Config.{StreamSourceConfig}
use nephtys.Server.Supervisor.{StreamFailure, StreamRuntime}
use nephtys.Server.Manager.{Manager}
use nephtys.Server.Manager.Update.{or_zero}

pub record StreamInfo : Type 0 where
  pub id : String
  pub status : SourceStatus
  pub health : String
  pub last_message_at : Option ℕ
  pub restart_count : ℕ
  pub last_error : String  -- blank if there is none
  pub last_error_at : Option ℕ

pub record StreamDetail : Type 0 where
  pub info : StreamInfo
  pub config : StreamSourceConfig

abbrev pub source_health : SourceStatus → String
source_health running = "healthy"
source_health error = "errored"
source_health _ = "degraded"

abbrev pub metric_state : SourceStatus → String
metric_state running = "connected"
metric_state error = "errored"
metric_state stopped = "stopped"
metric_state _ = "reconnecting"

abbrev pub runtime_last_message_at : StreamRuntime → Option ℕ
runtime_last_message_at rt = if ltb 0 rt.last_message then some rt.last_message else none

abbrev pub failure_message : Option StreamFailure → String
failure_message none = ""
failure_message (some f) = f.message

abbrev pub failure_at : Option StreamFailure → Option ℕ
failure_at none = none
failure_at (some f) = some f.at

unfoldable pub stream_info : String → StreamRuntime → StreamInfo
stream_info id rt = record {
  id = id;
  status = rt.status;
  health = source_health rt.status;
  last_message_at = runtime_last_message_at rt;
  restart_count = rt.restarts;
  last_error = failure_message rt.last_error;
  last_error_at = failure_at rt.last_error;
}

abbrev pub infos : List (String × StreamRuntime) → List StreamInfo
infos [] = []
infos ((id, rt) ∷ rest) = stream_info id rt ∷ infos rest

unfoldable pub list_streams : Manager → List StreamInfo
list_streams m = infos (bindings m.runtimes)

abbrev pub detail :
    (StreamSourceConfig → StreamSourceConfig)
    → String
    → Option StreamSourceConfig
    → Option StreamRuntime
    → Option StreamDetail
detail redact id cfg none = none
detail redact id cfg (some rt) =
    some (record { info = stream_info id rt; config = redact (or_zero cfg) })

-- `redact` is redactConfig.
unfoldable pub describe :
    (StreamSourceConfig → StreamSourceConfig) → String → Manager → Option StreamDetail
describe redact id m = detail redact id (get m.configs id) (get m.runtimes id)

abbrev pub status_in : Option StreamRuntime → Option SourceStatus
status_in none = none
status_in (some rt) = some rt.status

unfoldable pub status_of : String → Manager → Option SourceStatus
status_of id m = status_in (get m.runtimes id)

unfoldable pub event_payload_size : StreamEvent → ℕ
event_payload_size e = if ltb 0 (length e.body_data) then length e.body_data else length e.payload
