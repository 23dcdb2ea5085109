-- ===== src/Pipeline/Middleware.antt =====
-- internal/pipeline: the six middlewares, each as the constructor that the builder calls. `none`
-- is the nil middleware of a block that is absent or does nothing.
pub mod Transform
pub mod Threshold
use nephtys.Prelude.{
  ℕ, suc, ◌+◌, String, Bool, true, false, Option, none, some, List, [], ◌∷◌, ◌++◌, not, ◌&&◌, ◌||◌,
  ltb, if◌then◌else◌,
}
use nephtys.Prelude.Lists.{length, any, is_empty}
use nephtys.Prelude.Text.{str_eq}
use nephtys.Prelude.Result.{Result, ok, err, ◌>>=◌}
use nephtys.Domain.Event.{Bytes, StreamEvent, is_binary, body}
use nephtys.Domain.Config.{FilterConfig, DedupConfig, BatchConfig}
use nephtys.Host.{Host}
use nephtys.Pipeline.Validate.Resolve.{
  ConfigError, resolve_duration, resolve_count, default_dedup_ttl, default_dedup_cache_size,
  default_flush_interval, default_max_batch_size, max_dedup_cache_size, max_batch_size,
}
use nephtys.Pipeline.Chain.{Outcome, success, parked, ChainState, Handler, Middleware}
use nephtys.Pipeline.Dedup.{check}
use nephtys.Pipeline.Generation.{Generation}

-- filter.go: `allowedTypes[event.Type]`
unfoldable pub filter_events : List String → Middleware
filter_events match_types next topic event s =
    if any (str_eq event.type) match_types
    then next topic event s
    else (record s { filter_drops = s.filter_drops + 1 }, success)

unfoldable pub new_filter : Option FilterConfig → Option Middleware
new_filter none = none
new_filter (some cfg) =
    if is_empty cfg.match_types then none else some (filter_events cfg.match_types)

-- dedup.go: `hash` is FNV-1a over the body of the event.
unfoldable pub dedup_events : (Bytes → ℕ) → ℕ → ℕ → Middleware
dedup_events hash ttl cache_size next topic event s =
    let (cache, fresh) = check ttl cache_size (hash (body event)) s.now s.dedup in
    let s' : ChainState = record s { dedup = cache } in
    if fresh then next topic event s' else (s', success)

-- The middleware, and the capacity that its construction publishes as a gauge.
unfoldable pub new_dedup :
    Host → (Bytes → ℕ) → Option DedupConfig → Result ConfigError (Option (Middleware × ℕ))
new_dedup host hash none = ok none
new_dedup host hash (some cfg) = if not cfg.enabled then ok none else do
  ttl ← resolve_duration host "pipeline.dedup.ttl" cfg.ttl default_dedup_ttl
  cache_size ←
      resolve_count "pipeline.dedup.cache_size" cfg.cache_size default_dedup_cache_size
        max_dedup_cache_size
  ok (some (dedup_events hash ttl cache_size, cache_size))

-- batch.go: the handler. A publisher that finds the channel full waits there.
unfoldable pub batch_events : ℕ → Middleware
batch_events max_size next topic event s =
    if is_binary event || s.generation.cancelled
    then next topic event s
    else if ltb (length s.generation.channel) max_size
    then (
      record s {
        generation = record s.generation {
          channel = s.generation.channel ++ (topic, event) ∷ [];
          accepted = s.generation.accepted ++ event ∷ [];
        };
      },
      success,
    )
    else (s, parked)

-- The middleware, and the interval of its worker's ticker.
unfoldable pub new_batch : Host → Option BatchConfig → Result ConfigError (Option (Middleware × ℕ))
new_batch host none = ok none
new_batch host (some cfg) = if not cfg.enabled then ok none else do
  max_size ←
      resolve_count "pipeline.batch.max_batch_size" cfg.max_batch_size default_max_batch_size
        max_batch_size
  flush_interval ←
      resolve_duration host "pipeline.batch.flush_interval" cfg.flush_interval
        default_flush_interval
  ok (some (batch_events max_size, flush_interval))
