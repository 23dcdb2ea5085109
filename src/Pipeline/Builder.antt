-- ===== src/Pipeline/Builder.antt =====
-- internal/pipeline/builder.go: the chain that a configuration describes.
pub mod Valid
pub mod Order
mod Tests
use nephtys.Prelude.{ℕ, String, Option, none, some, List, [], ◌∷◌, ◌++◌}
use nephtys.Prelude.Map.{Map, put, remove}
use nephtys.Prelude.Result.{Result, ok, err}
use nephtys.Domain.Event.{Bytes}
use nephtys.Domain.Config.{PipelineConfig}
use nephtys.Host.{Host}
use nephtys.Pipeline.Validate.Resolve.{ConfigError}
use nephtys.Pipeline.Chain.{Middleware}
use nephtys.Pipeline.Middleware.{new_filter, new_dedup, new_batch}
use nephtys.Pipeline.Middleware.Transform.{new_transform, new_enrich}
use nephtys.Pipeline.Middleware.Threshold.{new_threshold}

abbrev pub append_if_built : List Middleware → Option Middleware → List Middleware
append_if_built ms none = ms
append_if_built ms (some m) = ms ++ m ∷ []

-- The dedup gauges of the streams: `DedupCacheCapacity` by stream id, and `DeleteDedupSeries`.
abbrev pub Series : Type 0
Series = Map ℕ

abbrev pub Built : Type 0
Built = Series × Result ConfigError (List Middleware)

module _ (host : Host) (hash : Bytes → ℕ) (stream_id : String) where
  -- From the batch on: a batch that does not build takes back what the dedup published.
  pub with_batch :
      List Middleware
      → Option (Middleware × ℕ)
      → Series
      → Result ConfigError (Option (Middleware × ℕ))
      → Built
  with_batch ms dedup series (ok none) = (series, ok ms)
  with_batch ms dedup series (ok (some (batch, interval))) = (series, ok (ms ++ batch ∷ []))
  with_batch ms none series (err e) = (series, err e)
  with_batch ms (some built) series (err e) = (remove series stream_id, err e)

  -- From the enrichment on.
  pub finish : PipelineConfig → List Middleware → Option (Middleware × ℕ) → Series → Built
  unfolding with_batch
  finish cfg ms dedup series =
      with_batch
        (append_if_built (append_if_built ms (new_enrich host cfg.enrich))
          (new_threshold host cfg.threshold))
        dedup series (new_batch host cfg.batch)

  -- From the dedup on: it publishes its capacity, and without it the stream's series goes.
  pub with_dedup :
      PipelineConfig
      → List Middleware
      → Series
      → Result ConfigError (Option (Middleware × ℕ))
      → Built
  unfolding finish
  with_dedup cfg ms series (err e) = (series, err e)
  with_dedup cfg ms series (ok none) = finish cfg ms none (remove series stream_id)
  with_dedup cfg ms series (ok (some (dedup, capacity))) =
      finish cfg (ms ++ dedup ∷ []) (some (dedup, capacity)) (put series stream_id capacity)

  unfoldable pub build_from_config : Option PipelineConfig → Series → Built
  unfolding with_dedup
  build_from_config none series = (series, ok [])
  build_from_config (some cfg) series =
      with_dedup cfg
        (append_if_built (append_if_built [] (new_filter cfg.filter))
          (new_transform host cfg.transform))
        series (new_dedup host hash cfg.dedup)
