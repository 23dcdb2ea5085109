-- ===== src/Server/Manager.antt =====
-- internal/server/manager.go: StreamManager. Every operation that holds the lock is one function of
-- the state; what the source, the store and the clock answer are its arguments.
pub mod Ports
pub mod Remove
pub mod Update
pub mod Restore
pub mod StopAll
pub mod Info
pub mod Settled
pub mod Outcome
pub mod Consistent
pub mod Failed
pub mod Preserve
pub mod Reach
pub mod Admit
pub mod Removal
pub mod Swap
pub mod Restored
pub mod Restarted
pub mod Stopped
pub mod Teardown
mod Tests
use nephtys.Prelude.{
  ℕ, ◌+◌, String, Bool, true, false, Option, none, some, List, [], ◌∷◌, ◌&&◌, not, if◌then◌else◌,
  is_some,
}
use nephtys.Prelude.Text.{str_eq, is_blank}
use nephtys.Prelude.Map.{Map, empty, get, put, remove, drop_if}
use nephtys.Prelude.Result.{Result, ok, err}
use nephtys.Domain.Event.{Bytes, connecting, error}
use nephtys.Domain.Config.{PipelineConfig, StreamSourceConfig}
use nephtys.Host.{Host}
use nephtys.Pipeline.Validate.Resolve.{ConfigError}
use nephtys.Pipeline.Chain.{Middleware}
use nephtys.Pipeline.Builder.{Series, Built, build_from_config}
use nephtys.Server.Validate.Fields.{StreamError}
use nephtys.Server.Supervisor.{StreamRuntime, new_stream_runtime, record_failure}
use Ports.{connector_port}

pub data ManagerError : Type 0 where
  stream_not_found stream_exists : String → ManagerError
  port_conflict : String → String → ManagerError
  build_failed : ConfigError → ManagerError
  source_open persist_failed delete_failed load_failed : String → ManagerError
  invalid_persisted : StreamError → ManagerError
  unsupported_kind : String → ManagerError

-- A generation of a stream's pipeline: the serial number of its construction, and its chain.
pub record Live : Type 0 where
  pub serial : ℕ
  pub chain : List Middleware

-- What the manager did to things outside its maps.
pub data Effect : Type 0 where
  acquired closed launched cancelled awaited : String → Effect
  retired : ℕ → Effect

pub record Manager : Type 0 where
  pub generations : Map Live
  pub configs : Map StreamSourceConfig
  pub cancels : Map (Unit {0})
  pub dones : Map (Unit {0})
  pub runtimes : Map StreamRuntime
  pub port_claims : Map String
  pub store : Option (Map StreamSourceConfig)  -- `none` is the nil store
  pub series : Series
  pub built : ℕ  -- how many generations have been built
  pub trace : List Effect  -- the last one first

abbrev pub new_stream_manager : Option (Map StreamSourceConfig) → Manager
new_stream_manager store = record {
  generations = empty;
  configs = empty;
  cancels = empty;
  dones = empty;
  runtimes = empty;
  port_claims = empty;
  store = store;
  series = empty;
  built = 0;
  trace = [];
}

-- The manager after an operation, and the error that the operation returned.
abbrev pub Reply : Type 0
Reply = Manager × Option ManagerError

unfoldable pub note : Effect → Manager → Manager
note e m = record m { trace = e ∷ m.trace }

unfoldable pub retire : Live → Manager → Manager
unfolding note
retire g m = note (retired g.serial) m

unfoldable pub discard_generation : String → Live → Manager → Manager
unfolding retire
discard_generation id g m = let m' = retire g m in record m' { series = remove m'.series id }

-- What Open and Put answer.
pub record Admission : Type 0 where
  pub open_error : Option String
  pub put_error : Option String

abbrev pub store_put :
    StreamSourceConfig → Option (Map StreamSourceConfig) → Option (Map StreamSourceConfig)
store_put cfg none = none
store_put cfg (some kv) = some (put kv cfg.id cfg)

abbrev pub store_delete : String → Option (Map StreamSourceConfig) → Option (Map StreamSourceConfig)
store_delete id none = none
store_delete id (some kv) = some (remove kv id)

-- What a write to the store returns when there is a store to write to.
abbrev pub write_error : Bool → Option (Map StreamSourceConfig) → Option String → Option String
write_error true (some kv) e = e
write_error _ _ e = none

unfoldable pub claim : String → String → Map String → Map String
claim port id claims = if is_blank port then claims else put claims port id

-- From `m.configs[id] = cfg` to the start of the supervisor.
unfoldable pub install : StreamSourceConfig → Live → Manager → Manager
unfolding note claim
install cfg g m = note (launched cfg.id) (record m {
  configs = put m.configs cfg.id cfg;
  cancels = put m.cancels cfg.id tt;
  dones = put m.dones cfg.id tt;
  runtimes = put m.runtimes cfg.id (new_stream_runtime connecting);
  port_claims = claim (connector_port cfg) cfg.id m.port_claims;
  generations = put m.generations cfg.id g;
})

-- `if persist && m.store != nil`, and the installation.
unfoldable pub persisted : Bool → StreamSourceConfig → Live → Option String → Manager → Reply
unfolding note discard_generation install
persisted persist cfg g none m =
    (install cfg g (if persist then record m { store = store_put cfg m.store } else m), none)
persisted persist cfg g (some e) m =
    (discard_generation cfg.id g (note (closed cfg.id) m), some (persist_failed e))

unfoldable pub acquire :
    Bool → Admission → StreamSourceConfig → Live → Option String → Manager → Reply
unfolding note discard_generation persisted
acquire persist env cfg g (some e) m = (discard_generation cfg.id g m, some (source_open e))
acquire persist env cfg g none m =
    persisted persist cfg g (write_error persist m.store env.put_error) (note (acquired cfg.id) m)

unfoldable pub with_generation : Bool → Admission → StreamSourceConfig → Built → Manager → Reply
unfolding acquire
with_generation persist env cfg (series, err e) m =
    (record m { series = series }, some (build_failed e))
with_generation persist env cfg (series, ok chain) m =
    acquire persist env cfg (record { serial = m.built; chain = chain }) env.open_error
      (record m { series = series; built = m.built + 1 })

-- The holder of a port that is claimed.
unfoldable pub holder_of : String → Map String → Option String
holder_of port claims = if is_blank port then none else get claims port

module _ (host : Host) (hash : Bytes → ℕ) where
  unfoldable pub claimed : Bool → Admission → StreamSourceConfig → Option String → Manager → Reply
  unfolding with_generation
  claimed persist env cfg (some holder) m = (m, some (port_conflict (connector_port cfg) holder))
  claimed persist env cfg none m =
      with_generation persist env cfg (build_from_config host hash cfg.id cfg.pipeline m.series) m

  -- admitLocked.
  unfoldable pub admit : Bool → Admission → StreamSourceConfig → Manager → Reply
  unfolding claimed holder_of
  admit persist env cfg m =
      if is_some (get m.runtimes cfg.id)
      then (m, some (stream_exists cfg.id))
      else claimed persist env cfg (holder_of (connector_port cfg) m.port_claims) m

  unfoldable pub register : Admission → StreamSourceConfig → Manager → Reply
  unfolding admit
  register env cfg m = admit true env cfg m

-- admitFailedLocked: a stream in its terminal state.
unfoldable pub claim_if_free : String → String → Map String → Map String
claim_if_free port id claims =
    if is_blank port
    then claims
    else if is_some (get claims port)
    then claims
    else put claims port id

-- `cause` is what the error says.
unfoldable pub admit_failed :
    (String → String) → StreamSourceConfig → String → ℕ → Manager → Manager
unfolding record_failure claim_if_free
admit_failed redact cfg cause now m = record m {
  configs = put m.configs cfg.id cfg;
  runtimes =
      put m.runtimes cfg.id (record_failure redact (some cause) now (new_stream_runtime error));
  port_claims = claim_if_free (connector_port cfg) cfg.id m.port_claims;
}
