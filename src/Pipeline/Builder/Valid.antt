-- ===== src/Pipeline/Builder/Valid.antt =====
-- internal/pipeline/builder.go and validate.go: what passes validation builds.
use nephtys.Prelude.{
  ℕ, ◌≡◌, refl, String, Option, none, some, List, [], ◌∷◌, ◌++◌, inl, inr, Bool-cases,
}
use nephtys.Prelude.Result.{ok, >>=-eq-ok, >>-eq-ok}
use nephtys.Domain.Event.{Bytes}
use nephtys.Domain.Config.{DedupConfig, BatchConfig, PipelineConfig}
use nephtys.Host.{Host}
use nephtys.Pipeline.Validate.{
  validate_config, check_blocks, check_block, check_filter, check_transform, check_enrich,
  check_dedup, check_threshold, check_batch,
}
use nephtys.Pipeline.Validate.Resolve.{
  resolve_duration, resolve_count, default_dedup_ttl, default_dedup_cache_size,
  default_flush_interval, default_max_batch_size, max_dedup_cache_size, max_batch_size,
}
use nephtys.Pipeline.Chain.{Middleware}
use nephtys.Pipeline.Middleware.{new_dedup, new_batch, dedup_events, batch_events}
use nephtys.Pipeline.Builder.{Built, Series, with_batch, finish, with_dedup, build_from_config}

dedup-Builds :
    (host : Host) (hash : Bytes → ℕ) (o : Option DedupConfig)
    → check_block (check_dedup host) o ≡ ok tt
    → (d : Option (Middleware × ℕ)) × (new_dedup host hash o ≡ ok d)
unfolding new_dedup check_dedup
dedup-Builds host hash none v = (none, refl)
dedup-Builds host hash (some cfg) v = elim (Bool-cases cfg.enabled) [
  | inl on ↦
      let (ttl, t, rest) =
        >>=-eq-ok (resolve_duration host "pipeline.dedup.ttl" cfg.ttl default_dedup_ttl) _ v in
      let (size, c, done) =
        >>=-eq-ok
          (resolve_count "pipeline.dedup.cache_size" cfg.cache_size default_dedup_cache_size
            max_dedup_cache_size)
          _ rest in
      (some (dedup_events hash ttl size, size), rw (on, t, c))
  | inr off ↦ (none, rw off)
]

batch-Builds :
    (host : Host) (o : Option BatchConfig)
    → check_block (check_batch host) o ≡ ok tt
    → (b : Option (Middleware × ℕ)) × (new_batch host o ≡ ok b)
unfolding new_batch check_batch
batch-Builds host none v = (none, refl)
batch-Builds host (some cfg) v = elim (Bool-cases cfg.enabled) [
  | inl on ↦
      let (interval, t, rest) =
        >>=-eq-ok
          (resolve_duration host "pipeline.batch.flush_interval" cfg.flush_interval
            default_flush_interval)
          _ v in
      let (size, c, done) =
        >>=-eq-ok
          (resolve_count "pipeline.batch.max_batch_size" cfg.max_batch_size default_max_batch_size
            max_batch_size)
          _ rest in
      (some (batch_events size, interval), rw (on, c, t))
  | inr off ↦ (none, rw off)
]

-- What validation says of the two blocks whose construction can fail.
blocks_valid :
    (host : Host) (cfg : PipelineConfig)
    → check_blocks host cfg ≡ ok tt
    → (check_block (check_dedup host) cfg.dedup ≡ ok tt)
      × (check_block (check_batch host) cfg.batch ≡ ok tt)
unfolding check_blocks
blocks_valid host cfg v =
    let (f, v₁) = >>-eq-ok (check_block check_filter cfg.filter) _ v in
    let (t, v₂) = >>-eq-ok (check_block check_transform cfg.transform) _ v₁ in
    let (e, v₃) = >>-eq-ok (check_block check_enrich cfg.enrich) _ v₂ in
    let (d, v₄) = >>-eq-ok (check_block (check_dedup host) cfg.dedup) _ v₃ in
    let (h, v₅) = >>-eq-ok (check_block check_threshold cfg.threshold) _ v₄ in (d, v₅)

-- Some middlewares, and no error.
abbrev Succeeds : Built → Type 0
Succeeds b = (ms : List Middleware) × (b.1 ≡ ok ms)

module _ (host : Host) (hash : Bytes → ℕ) (id : String) where
  with_batch-Succeeds :
      (ms : List Middleware) (dedup : Option (Middleware × ℕ)) (series : Series)
      (b : Option (Middleware × ℕ))
      → Succeeds (with_batch host hash id ms dedup series (ok b))
  unfolding with_batch
  with_batch-Succeeds ms dedup series none = (ms, refl)
  with_batch-Succeeds ms dedup series (some (m, interval)) = (ms ++ m ∷ [], refl)

  finish-Succeeds :
      (cfg : PipelineConfig) (ms : List Middleware) (dedup : Option (Middleware × ℕ))
      (series : Series)
      → check_block (check_batch host) cfg.batch ≡ ok tt
      → Succeeds (finish host hash id cfg ms dedup series)
  unfolding finish
  finish-Succeeds cfg ms dedup series v =
      let (b, e) = batch-Builds host cfg.batch v in rw e (with_batch-Succeeds _ dedup series b)

  with_dedup-Succeeds :
      (cfg : PipelineConfig) (ms : List Middleware) (series : Series) (d : Option (Middleware × ℕ))
      → check_block (check_batch host) cfg.batch ≡ ok tt
      → Succeeds (with_dedup host hash id cfg ms series (ok d))
  unfolding with_dedup
  with_dedup-Succeeds cfg ms series none v = finish-Succeeds cfg ms none _ v
  with_dedup-Succeeds cfg ms series (some (m, capacity)) v =
      finish-Succeeds cfg (ms ++ m ∷ []) (some (m, capacity)) _ v

  -- A pipeline configuration that passes validation builds, whatever the stream and the gauges.
  pub valid_config_builds :
      (cfg : Option PipelineConfig) (series : Series)
      → validate_config host cfg ≡ ok tt
      → (ms : List Middleware) × ((build_from_config host hash id cfg series).1 ≡ ok ms)
  unfolding validate_config build_from_config
  valid_config_builds none series v = ([], refl)
  valid_config_builds (some cfg) series v =
      let (d, b) = blocks_valid host cfg v in
      let (dedup, e) = dedup-Builds host hash cfg.dedup d in
      rw e (with_dedup-Succeeds cfg _ series dedup b)
