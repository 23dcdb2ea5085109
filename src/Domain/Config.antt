-- ===== src/Domain/Config.antt =====
-- internal/domain/event.go: what describes a stream. A pointer is an `Option`, a duration is the
-- text that the operator wrote, an `int` is a ℤ.
use nephtys.Prelude.{String, Bool, List, Option}
use nephtys.Prelude.Int.{ℤ}

-- A finite float64 is a whole multiple of 2 ^ -1074; the number here counts those. JSON has no
-- other float64, so a decoded configuration holds no infinity and no NaN.
abbrev pub Float64 : Type 0
Float64 = ℤ

abbrev pub Headers : Type 0
Headers = List (String × String)

pub record RestartConfig : Type 0 where
  pub max_attempts : Option ℤ
  pub initial_backoff : String
  pub max_backoff : String
  pub factor : Float64
  pub reset_after : String

pub record WebsocketConfig : Type 0 where
  pub on_connect_send : List String

pub record SseConfig : Type 0 where
  pub headers : Headers

pub record GrpcConfig : Type 0 where
  pub port : String

pub record RestPollerConfig : Type 0 where
  pub interval : String
  pub method : String
  pub headers : Headers

pub record WebhookConfig : Type 0 where
  pub port : String
  pub path : String
  pub auth_token : String

pub record FilterConfig : Type 0 where
  pub match_types : List String

pub record TransformConfig : Type 0 where
  pub mapping : List (String × String)

pub record EnrichConfig : Type 0 where
  pub tags : List (String × String)

pub record DedupConfig : Type 0 where
  pub enabled : Bool
  pub cache_size : ℤ
  pub ttl : String

pub record ThresholdConfig : Type 0 where
  pub enabled : Bool
  pub path : String
  pub delta : Float64
  pub group_by : String

pub record BatchConfig : Type 0 where
  pub enabled : Bool
  pub max_batch_size : ℤ
  pub flush_interval : String

pub record PipelineConfig : Type 0 where
  pub filter : Option FilterConfig
  pub transform : Option TransformConfig
  pub enrich : Option EnrichConfig
  pub dedup : Option DedupConfig
  pub threshold : Option ThresholdConfig
  pub batch : Option BatchConfig

pub record StreamSourceConfig : Type 0 where
  pub id : String
  pub kind : String
  pub url : String
  pub topic : String
  pub metadata : List (String × String)
  pub rest_poller : Option RestPollerConfig
  pub webhook : Option WebhookConfig
  pub grpc : Option GrpcConfig
  pub sse : Option SseConfig
  pub websocket : Option WebsocketConfig
  pub pipeline : Option PipelineConfig
  pub restart : Option RestartConfig
