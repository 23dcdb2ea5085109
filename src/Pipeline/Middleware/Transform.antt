-- ===== src/Pipeline/Middleware/Transform.antt =====
-- internal/pipeline/transform.go and enrich.go: the middlewares that rewrite the payload.
pub mod Payload
use nephtys.Prelude.{String, Bool, true, false, Option, none, some, List, [], ◌∷◌, if◌then◌else◌}
use nephtys.Prelude.Lists.{is_empty}
use nephtys.Domain.Event.{Bytes, StreamEvent}
use nephtys.Domain.Config.{TransformConfig, EnrichConfig}
use nephtys.Host.{Host}
use nephtys.Host.Json.{Json, Fields, end, obj, str, null, set_field}
use nephtys.Pipeline.Chain.{Outcome, panicked, ChainState, Handler, Middleware, extract_value}

unfoldable pub set_if_found : String → Option Json → Fields → Fields
set_if_found key none fs = fs
set_if_found key (some v) fs = set_field key v fs

-- The loop over the mapping, in whatever order. A Go map has no key twice, which theorems assume of
-- the list where they need it.
unfoldable pub transformed : Json → List (String × String) → Fields → Fields
unfolding set_if_found
transformed original [] fs = fs
transformed original ((new_key, path) ∷ rest) fs =
    transformed original rest (set_if_found new_key (extract_value original path) fs)

-- `event.Payload = newPayload`, or the event as it came where marshalling failed.
unfoldable pub repacked : Option Bytes → StreamEvent → StreamEvent
repacked none event = event
repacked (some new_payload) event = record event { payload = new_payload }

unfoldable pub transform_decoded :
    Host → List (String × String) → Option Json → StreamEvent → StreamEvent
unfolding transformed repacked
transform_decoded host mapping none event = event
transform_decoded host mapping (some original) event =
    repacked (host.marshal (obj (transformed original mapping end))) event

unfoldable pub transform_events : Host → List (String × String) → Middleware
unfolding transform_decoded
transform_events host mapping next topic event s =
    if is_empty event.payload
    then next topic event s
    else next topic (transform_decoded host mapping (host.unmarshal event.payload) event) s

unfoldable pub new_transform : Host → Option TransformConfig → Option Middleware
new_transform host none = none
new_transform host (some cfg) =
    if is_empty cfg.mapping then none else some (transform_events host cfg.mapping)

unfoldable pub inject : List (String × String) → Fields → Fields
inject [] fs = fs
inject ((k, v) ∷ tags) fs = inject tags (set_field k (str v) fs)

-- What `json.Unmarshal` makes of a payload for a `map[string]interface{}`: an object fills the map,
-- `null` leaves the map nil without an error, and a write to a nil map panics.
unfoldable pub enrich_decoded :
    Host
    → List (String × String)
    → Handler
    → Option Json
    → String
    → StreamEvent
    → ChainState
    → ChainState × Outcome
unfolding inject repacked
enrich_decoded host tags next (some (obj fs)) topic event s =
    next topic (repacked (host.marshal (obj (inject tags fs))) event) s
enrich_decoded host tags next (some null) topic event s = (s, panicked)
enrich_decoded host tags next _ topic event s = next topic event s

unfoldable pub enrich_events : Host → List (String × String) → Middleware
unfolding enrich_decoded
enrich_events host tags next topic event s =
    if is_empty event.payload
    then next topic event s
    else enrich_decoded host tags next (host.unmarshal event.payload) topic event s

unfoldable pub new_enrich : Host → Option EnrichConfig → Option Middleware
new_enrich host none = none
new_enrich host (some cfg) = if is_empty cfg.tags then none else some (enrich_events host cfg.tags)
