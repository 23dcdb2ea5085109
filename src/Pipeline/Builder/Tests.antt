-- ===== src/Pipeline/Builder/Tests.antt =====
-- A configuration with a filter, a dedup and a batch.
use nephtys.Prelude.{◌≡◌, refl, some, List, [], ◌∷◌, ◌++◌}
use nephtys.Prelude.Map.{empty}
use nephtys.Prelude.Result.{ok, err, Result}
use nephtys.Pipeline.Chain.{Handler, ChainState, success, Middleware, execute}
use nephtys.Pipeline.Dedup.{empty as empty_cache}
use nephtys.Pipeline.Generation.{new_generation}
use nephtys.Pipeline.Middleware.{new_dedup, new_batch}
use nephtys.Pipeline.Validate.{validate_config}
use nephtys.Pipeline.Validate.Resolve.{ConfigError, resolve_count, resolve_duration}
use nephtys.Pipeline.Builder.{build_from_config, with_dedup, finish, with_batch}
use nephtys.Pipeline.Builder.Valid.{valid_config_builds}
use nephtys.Pipeline.Builder.Order.{filtered_out}
use nephtys.Fixtures.{host, hash, trade, quotes_only, pipeline}

pipeline_valid : validate_config host (some pipeline) ≡ ok tt
unfolding validate_config resolve_duration resolve_count
pipeline_valid = refl

valid_config_builds_example :
    (ms : List Middleware) × ((build_from_config host hash "feed" (some pipeline) empty).1 ≡ ok ms)
valid_config_builds_example =
    valid_config_builds host hash "feed" (some pipeline) empty pipeline_valid

abbrev chain_of : Result ConfigError (List Middleware) → List Middleware
chain_of (ok ms) = ms
chain_of (err e) = []

unfoldable built : List Middleware
unfolding build_from_config
built = chain_of (build_from_config host hash "feed" (some pipeline) empty).1

abbrev quiet : ChainState
quiet = record {
  now = 5;
  filter_drops = 0;
  dedup = empty_cache;
  threshold = empty;
  threshold_drops = 0;
  generation = new_generation;
  published = [];
}

abbrev publish : Handler
publish topic e s = (record s { published = s.published ++ (topic, e) ∷ [] }, success)

filtered_out_example :
    execute built publish "events" (trade 1) quiet ≡ (record quiet { filter_drops = 1 }, success)
unfolding built build_from_config with_dedup finish with_batch new_dedup resolve_duration
    resolve_count new_batch
filtered_out_example =
    filtered_out host hash "feed" pipeline quotes_only empty built publish "events" (trade 1) quiet
      refl refl refl refl
