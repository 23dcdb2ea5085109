-- ===== src/Pipeline/Builder/Order.antt =====
-- internal/pipeline/builder.go: where the middlewares stand in the chain.
use nephtys.Prelude.{
  ℕ, ◌+◌, ◌≡◌, refl, ap, sym, String, false, Option, none, some, List, [], ◌∷◌, ◌++◌, ◌∙◌, subst,
}
use nephtys.Prelude.Lists.{any, is_empty}
use nephtys.Prelude.Text.{str_eq}
use nephtys.Prelude.Result.{Result, ok, err}
use nephtys.Domain.Event.{Bytes, StreamEvent}
use nephtys.Domain.Config.{FilterConfig, PipelineConfig}
use nephtys.Host.{Host}
use nephtys.Pipeline.Validate.Resolve.{ConfigError}
use nephtys.Pipeline.Chain.{success, ChainState, Handler, Middleware, execute}
use nephtys.Pipeline.Middleware.{filter_events, new_filter, new_dedup, new_batch}
use nephtys.Pipeline.Middleware.Transform.{new_transform, new_enrich}
use nephtys.Pipeline.Middleware.Threshold.{new_threshold}
use nephtys.Pipeline.Builder.{
  Built, Series, append_if_built, with_batch, finish, with_dedup, build_from_config,
}

-- The chain is a composition: the middlewares in front wrap those behind them.
pub execute-append :
    (ms ns : List Middleware) (publish : Handler)
    → execute (ms ++ ns) publish ≡ execute ms (execute ns publish)
unfolding execute
execute-append [] ns publish = refl
execute-append (m ∷ ms) ns publish = ap m (execute-append ms ns publish)

-- The middlewares that a construction gives start with this one.
abbrev StartsWith : Middleware → Built → Type 0
StartsWith m b = (ms : List Middleware) → b.1 ≡ ok ms → (rest : List Middleware) × (ms ≡ m ∷ rest)

abbrev Led : Middleware → List Middleware → Type 0
Led m ms = (rest : List Middleware) × (ms ≡ m ∷ rest)

Led-append : (m : Middleware) (ms ns : List Middleware) → Led m ms → Led m (ms ++ ns)
Led-append m ms ns (rest, e) = (rest ++ ns, ap (λ (xs : List Middleware). xs ++ ns) e)

Led-append_if_built :
    (m : Middleware) (ms : List Middleware) (o : Option Middleware)
    → Led m ms
    → Led m (append_if_built ms o)
Led-append_if_built m ms none l = l
Led-append_if_built m ms (some n) l = Led-append m ms (n ∷ []) l

module _ (host : Host) (hash : Bytes → ℕ) (id : String) (m : Middleware) where
  with_batch-StartsWith :
      (ms : List Middleware) (dedup : Option (Middleware × ℕ)) (series : Series)
      (b : Result ConfigError (Option (Middleware × ℕ)))
      → Led m ms
      → StartsWith m (with_batch host hash id ms dedup series b)
  unfolding with_batch
  with_batch-StartsWith ms dedup series (ok none) l out e =
      let same : ms ≡ out = cc in subst (Led m) same l
  with_batch-StartsWith ms dedup series (ok (some (n, interval))) l out e =
      let same : ms ++ n ∷ [] ≡ out = cc in subst (Led m) same (Led-append m ms (n ∷ []) l)
  with_batch-StartsWith ms none series (err x) l out e = cc
  with_batch-StartsWith ms (some d) series (err x) l out e = cc

  finish-StartsWith :
      (cfg : PipelineConfig) (ms : List Middleware) (dedup : Option (Middleware × ℕ))
      (series : Series)
      → Led m ms
      → StartsWith m (finish host hash id cfg ms dedup series)
  unfolding finish
  finish-StartsWith cfg ms dedup series l =
      with_batch-StartsWith _ dedup series (new_batch host cfg.batch) (
        Led-append_if_built m _ (new_threshold host cfg.threshold)
          (Led-append_if_built m ms (new_enrich host cfg.enrich) l))

  with_dedup-StartsWith :
      (cfg : PipelineConfig) (ms : List Middleware) (series : Series)
      (d : Result ConfigError (Option (Middleware × ℕ)))
      → Led m ms
      → StartsWith m (with_dedup host hash id cfg ms series d)
  unfolding with_dedup
  with_dedup-StartsWith cfg ms series (err x) l out e = cc
  with_dedup-StartsWith cfg ms series (ok none) l out e = finish-StartsWith cfg ms none _ l out e
  with_dedup-StartsWith cfg ms series (ok (some (n, capacity))) l out e =
      finish-StartsWith cfg (ms ++ n ∷ []) (some (n, capacity)) _ (Led-append m ms (n ∷ []) l) out e

new_filter_listed :
    (f : FilterConfig)
    → is_empty f.match_types ≡ false
    → new_filter (some f) ≡ some (filter_events f.match_types)
unfolding new_filter
new_filter_listed f p = rw p refl

filter_leads :
    (host : Host) (hash : Bytes → ℕ) (id : String) (cfg : PipelineConfig) (f : FilterConfig)
    (series : Series)
    → cfg.filter ≡ some f
    → is_empty f.match_types ≡ false
    → StartsWith (filter_events f.match_types) (build_from_config host hash id (some cfg) series)
unfolding build_from_config
filter_leads host hash id cfg f series c p =
    let m = filter_events f.match_types in
    let built : new_filter cfg.filter ≡ some m = ap new_filter c ∙ new_filter_listed f p in
    with_dedup-StartsWith host hash id m cfg _ series (new_dedup host hash cfg.dedup) (
      Led-append_if_built m _ (new_transform host cfg.transform)
        (subst (λ (o : Option Middleware). Led m (append_if_built [] o)) (sym built) ([], refl)))

-- In the chain that is built for a configuration with a filter, an event whose type is not listed
-- ends at the filter: it is counted as dropped, the call succeeds, and no other middleware and no
-- publish sees it, so the dedup cache, the threshold and the batch are as they were.
pub filtered_out :
    (host : Host) (hash : Bytes → ℕ) (id : String) (cfg : PipelineConfig) (f : FilterConfig)
    (series : Series) (ms : List Middleware) (publish : Handler) (topic : String) (e : StreamEvent)
    (s : ChainState)
    → cfg.filter ≡ some f
    → is_empty f.match_types ≡ false
    → (build_from_config host hash id (some cfg) series).1 ≡ ok ms
    → any (str_eq e.type) f.match_types ≡ false
    → execute ms publish topic e s ≡ (record s { filter_drops = s.filter_drops + 1 }, success)
unfolding execute filter_events
filtered_out host hash id cfg f series ms publish topic e s c p b n =
    let (rest, led) = filter_leads host hash id cfg f series c p ms b in rw (led, n) refl
