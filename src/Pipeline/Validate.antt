-- ===== src/Pipeline/Validate.antt =====
-- internal/pipeline/validate.go: which pipeline configurations are accepted.
pub mod Resolve
use nephtys.Prelude.{
  ℕ, suc, ◌+◌, String, Bool, Option, none, some, List, [], ◌∷◌, not, ◌&&◌, if◌then◌else◌,
}
use nephtys.Prelude.Int.{ℤ, pos, ltb_ℤ}
use nephtys.Prelude.Lists.{is_empty, any}
use nephtys.Prelude.Text.{str_eq, is_blank}
use nephtys.Prelude.Result.{Result, ok, err, Check, ◌>>=◌, ◌>>◌, require}
use nephtys.Domain.Config.{
  FilterConfig, TransformConfig, EnrichConfig, DedupConfig, ThresholdConfig, BatchConfig,
  PipelineConfig,
}
use nephtys.Host.{Host}
use Resolve.{
  ConfigError, filter_empty, filter_blank_type, transform_empty, transform_blank_key,
  transform_blank_path, enrich_empty, enrich_blank_tag, threshold_no_path, threshold_negative_delta,
  resolve_duration, resolve_count, default_dedup_ttl, default_dedup_cache_size,
  default_flush_interval, default_max_batch_size, max_dedup_cache_size, max_batch_size,
}

unfoldable pub check_types : ℕ → List String → Check ConfigError
check_types i [] = ok tt
check_types i (t ∷ ts) = if is_blank t then err (filter_blank_type i) else check_types (i + 1) ts

unfoldable pub check_filter : FilterConfig → Check ConfigError
unfolding check_types
check_filter f = do require (not (is_empty f.match_types)) filter_empty; check_types 0 f.match_types

unfoldable pub check_mapping : List (String × String) → Check ConfigError
check_mapping [] = ok tt
check_mapping ((key, path) ∷ rest) =
    if is_blank key
    then err transform_blank_key
    else if is_blank path
    then err (transform_blank_path key)
    else check_mapping rest

unfoldable pub check_transform : TransformConfig → Check ConfigError
unfolding check_mapping
check_transform t = do require (not (is_empty t.mapping)) transform_empty; check_mapping t.mapping

-- `_, ok := tags[""]`
unfoldable pub has_blank_key : List (String × String) → Bool
has_blank_key = any (λ (kv : String × String). is_blank kv.0)

unfoldable pub check_enrich : EnrichConfig → Check ConfigError
unfolding has_blank_key
check_enrich e = do
  require (not (is_empty e.tags)) enrich_empty
  require (not (has_blank_key e.tags)) enrich_blank_tag

unfoldable pub check_dedup : Host → DedupConfig → Check ConfigError
check_dedup host d = do
  _ ← resolve_duration host "pipeline.dedup.ttl" d.ttl default_dedup_ttl
  _ ←
      resolve_count "pipeline.dedup.cache_size" d.cache_size default_dedup_cache_size
        max_dedup_cache_size
  ok tt

unfoldable pub check_threshold : ThresholdConfig → Check ConfigError
check_threshold t = do
  require (not (t.enabled && is_blank t.path)) threshold_no_path
  require (not (ltb_ℤ t.delta (pos 0))) threshold_negative_delta

unfoldable pub check_batch : Host → BatchConfig → Check ConfigError
check_batch host b = do
  _ ← resolve_duration host "pipeline.batch.flush_interval" b.flush_interval default_flush_interval
  _ ←
      resolve_count "pipeline.batch.max_batch_size" b.max_batch_size default_max_batch_size
        max_batch_size
  ok tt

-- A block that is not there has nothing to check.
abbrev pub check_block : {B E : Type 0} → (B → Check E) → Option B → Check E
check_block check none = ok tt
check_block check (some b) = check b

unfoldable pub check_blocks : Host → PipelineConfig → Check ConfigError
unfolding check_filter check_transform check_enrich check_dedup check_threshold check_batch
check_blocks host cfg = do
  check_block check_filter cfg.filter
  check_block check_transform cfg.transform
  check_block check_enrich cfg.enrich
  check_block (check_dedup host) cfg.dedup
  check_block check_threshold cfg.threshold
  check_block (check_batch host) cfg.batch

unfoldable pub validate_config : Host → Option PipelineConfig → Check ConfigError
unfolding check_blocks
validate_config host = check_block (check_blocks host)
