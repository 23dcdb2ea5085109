-- ===== src/Pipeline/Validate/Resolve.antt =====
-- internal/pipeline/validate.go: the defaults, the ceilings, and the two functions that turn an
-- optional field into a value. An error names what was wrong and carries what the message quotes.
use nephtys.Prelude.{
  ℕ, zero, suc, ◌*◌, ◌≤◌, ◌<◌, ◌≡◌, String, Option, none, some, arith, ltb, if◌then◌else◌,
}
use nephtys.Prelude.Int.{ℤ, pos, negsuc}
use nephtys.Prelude.Text.{is_blank}
use nephtys.Prelude.Result.{Result, ok, err}
use nephtys.Host.{Host}

pub data ConfigError : Type 0 where
  not_a_duration not_positive : String → String → ConfigError
  negative_count count_over_limit : String → ConfigError
  filter_empty : ConfigError
  filter_blank_type : ℕ → ConfigError
  transform_empty transform_blank_key : ConfigError
  transform_blank_path : String → ConfigError
  enrich_empty enrich_blank_tag : ConfigError
  threshold_no_path threshold_negative_delta : ConfigError

-- a second, in nanoseconds
abbrev pub second : ℕ
second = 1000000000

abbrev pub default_dedup_ttl : ℕ
default_dedup_ttl = 60 * second

abbrev pub default_dedup_cache_size : ℕ
default_dedup_cache_size = 1000

abbrev pub default_flush_interval : ℕ
default_flush_interval = second

abbrev pub default_max_batch_size : ℕ
default_max_batch_size = 100

abbrev pub max_dedup_cache_size : ℕ
max_dedup_cache_size = 1000000

abbrev pub max_batch_size : ℕ
max_batch_size = 100000

-- `parsed <= 0` is an error.
positive_duration : String → String → Option ℤ → Result ConfigError ℕ
positive_duration path raw none = err (not_a_duration path raw)
positive_duration path raw (some (pos (suc n))) = ok (suc n)
positive_duration path raw (some d) = err (not_positive path raw)

unfoldable pub resolve_duration : Host → String → String → ℕ → Result ConfigError ℕ
unfolding positive_duration
resolve_duration host path raw def =
    if is_blank raw then ok def else positive_duration path raw (host.parse_duration raw)

unfoldable pub resolve_count : String → ℤ → ℕ → ℕ → Result ConfigError ℕ
resolve_count path (pos zero) def limit = ok def
resolve_count path (negsuc n) def limit = err (negative_count path)
resolve_count path (pos (suc n)) def limit =
    if ltb limit (suc n) then err (count_over_limit path) else ok (suc n)

-- A resolved duration is positive, if the default is.
pub resolve_duration-pos :
    (host : Host) (path raw : String) (def d : ℕ)
    → resolve_duration host path raw def ≡ ok d
    → 0 < def
    → 0 < d
unfolding resolve_duration
resolve_duration-pos host path raw def d h p = ground arith

-- A resolved count is positive and within the limit, if the default is.
pub resolve_count_bounds :
    (path : String) (raw : ℤ) (def limit n : ℕ)
    → resolve_count path raw def limit ≡ ok n
    → 0 < def
    → def ≤ limit
    → (0 < n) × (n ≤ limit)
unfolding resolve_count
resolve_count_bounds path (pos zero) def limit n h p q = ground arith
resolve_count_bounds path (pos (suc m)) def limit n h p q = ground arith
resolve_count_bounds path (negsuc m) def limit n h p q = ground arith
