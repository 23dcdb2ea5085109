-- ===== src/Fixtures.antt =====
-- A host with the simplest functions that fit, and the events and configurations of the tests.
use nephtys.Prelude.{ℕ, true, false, none, some, [], ◌∷◌, if◌then◌else◌}
use nephtys.Prelude.Int.{pos}
use nephtys.Prelude.Text.{str_eq}
use nephtys.Domain.Event.{Bytes, StreamEvent}
use nephtys.Domain.Config.{FilterConfig, PipelineConfig, RestartConfig, StreamSourceConfig}
use nephtys.Host.{Host}
use nephtys.Host.Json.{obj, end}
use nephtys.Host.Float.{nan}

abbrev pub host : Host
host = record {
  parse_duration = λ s. if str_eq s "5s" then some (pos 5000000000) else none;
  parse_url = λ s. some (record {
    scheme = "wss";
    opaque = "";
    user = none;
    host = "feed";
    path = [];
    raw_path = [];
    omit_host = false;
    force_query = false;
    raw_query = [];
    fragment = "";
  });
  scale = λ d f n. some d;
  unmarshal = λ bs. some (obj end);
  marshal = λ v. some (b'{' ∷ b'}' ∷ []);
  marshal_array = λ items. some (b'[' ∷ b']' ∷ []);
  parse_float = λ s. some nan;
  sprint = λ v. "";
  far = λ a b d. false;
}

abbrev pub hash : Bytes → ℕ
hash [] = 0
hash (b ∷ bs) = b

abbrev pub trade : ℕ → StreamEvent
trade n = record {
  source = "feed";
  type = "trade";
  timestamp = n;
  seq = n;
  content_type = "";
  payload = n ∷ [];
  body_data = [];
}

abbrev pub no_pipeline : PipelineConfig
no_pipeline = record {
  filter = none;
  transform = none;
  enrich = none;
  dedup = none;
  threshold = none;
  batch = none;
}

abbrev pub quotes_only : FilterConfig
quotes_only = record { match_types = "quote" ∷ [] }

abbrev pub pipeline : PipelineConfig
pipeline = record no_pipeline {
  filter = some quotes_only;
  dedup = some (record { enabled = true; cache_size = pos 2; ttl = "5s" });
  batch = some (record { enabled = true; max_batch_size = pos 2; flush_interval = "5s" });
}

abbrev pub five_seconds : RestartConfig
five_seconds = record {
  max_attempts = some (pos 2);
  initial_backoff = "5s";
  max_backoff = "5s";
  factor = pos 0;
  reset_after = "5s";
}

abbrev pub feed : StreamSourceConfig
feed = record {
  id = "feed";
  kind = "websocket";
  url = "wss://feed";
  topic = "events";
  metadata = [];
  rest_poller = none;
  webhook = none;
  grpc = none;
  sse = none;
  websocket = none;
  pipeline = some pipeline;
  restart = some five_seconds;
}

abbrev pub hook : StreamSourceConfig
hook = record feed {
  id = "hook";
  kind = "webhook";
  url = "";
  webhook = some (record { port = "09000"; path = "/"; auth_token = "" });
}
