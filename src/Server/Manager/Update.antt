-- ===== src/Server/Manager/Update.antt =====
-- internal/server/manager.go: UpdatePipeline. It gives the lock up while it builds, so it is two
-- operations, and whatever else the manager does may come between them.
use nephtys.Prelude.{ℕ, ◌+◌, String, true, Option, none, some, [], if◌then◌else◌, is_some}
use nephtys.Prelude.Map.{get, put}
use nephtys.Prelude.Result.{Result, ok, err}
use nephtys.Domain.Event.{Bytes}
use nephtys.Domain.Config.{PipelineConfig, StreamSourceConfig}
use nephtys.Host.{Host}
use nephtys.Pipeline.Builder.{Built, build_from_config}
use nephtys.Server.Manager.{
  ManagerError, stream_not_found, build_failed, persist_failed, Live, Manager, Reply, retire,
  discard_generation, store_put, write_error,
}

abbrev pub blank_config : StreamSourceConfig
blank_config = record {
  id = "";
  kind = "";
  url = "";
  topic = "";
  metadata = [];
  rest_poller = none;
  webhook = none;
  grpc = none;
  sse = none;
  websocket = none;
  pipeline = none;
  restart = none;
}

abbrev pub or_zero : Option StreamSourceConfig → StreamSourceConfig
or_zero none = blank_config
or_zero (some cfg) = cfg

unfoldable pub replacement : Built → Manager → Manager × Result ManagerError Live
replacement (series, err e) m = (record m { series = series }, err (build_failed e))
replacement (series, ok chain) m = (
  record m { series = series; built = m.built + 1 },
  ok (record { serial = m.built; chain = chain }),
)

-- Up to `m.mu.Lock()`: the replacement is built, and nothing is swapped.
unfoldable pub begin_update :
    Host
    → (Bytes → ℕ)
    → String
    → Option PipelineConfig
    → Manager
    → Manager × Result ManagerError Live
unfolding replacement
begin_update host hash id cfg m =
    if is_some (get m.generations id)
    then replacement (build_from_config host hash id cfg m.series) m
    else (m, err (stream_not_found id))

-- The effective configuration with its pipeline replaced.
unfoldable pub amended : String → Option PipelineConfig → Manager → StreamSourceConfig
amended id cfg m = record (or_zero (get m.configs id)) { pipeline = cfg }

unfoldable pub swap : String → StreamSourceConfig → Live → Live → Option String → Manager → Reply
unfolding retire
swap id updated previous next none m = (
  retire previous (record m {
    store = store_put updated m.store;
    configs = put m.configs id updated;
    generations = put m.generations id next;
  }),
  none,
)
swap id updated previous next (some e) m = (retire next m, some (persist_failed e))

unfoldable pub replaced :
    Option String → String → Option PipelineConfig → Live → Option Live → Manager → Reply
unfolding swap discard_generation amended
replaced put_error id cfg next none m = (discard_generation id next m, some (stream_not_found id))
replaced put_error id cfg next (some previous) m =
    swap id (amended id cfg m) previous next (write_error true m.store put_error) m

-- From `m.mu.Lock()` on, with what Put answers. Each way out retires one generation.
unfoldable pub finish_update :
    Option String → String → Option PipelineConfig → Live → Manager → Reply
unfolding replaced
finish_update put_error id cfg next m = replaced put_error id cfg next (get m.generations id) m
