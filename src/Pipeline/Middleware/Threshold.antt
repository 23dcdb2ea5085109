-- ===== src/Pipeline/Middleware/Threshold.antt =====
-- internal/pipeline/threshold.go: an event passes if its value is far enough from the last value
-- that passed in its group.
pub mod Spacing
use nephtys.Prelude.{
  ℕ, ◌+◌, String, Bool, true, false, Option, none, some, List, not, ◌||◌, if◌then◌else◌,
}
use nephtys.Prelude.Lists.{is_empty}
use nephtys.Prelude.Map.{Map, get, put}
use nephtys.Prelude.Text.{is_blank}
use nephtys.Domain.Event.{StreamEvent}
use nephtys.Domain.Config.{Float64, ThresholdConfig}
use nephtys.Host.{Host}
use nephtys.Host.Json.{Json, num, str}
use nephtys.Host.Float.{Float, finite, reaches}
use nephtys.Pipeline.Chain.{Outcome, success, ChainState, Handler, Middleware, extract_value}

-- The type switch: encoding/json decodes numbers as float64, so the other numeric cases are idle.
unfoldable pub numeric : Host → Option Json → Option Float
numeric host (some (num x)) = some (finite x)
numeric host (some (str s)) = host.parse_float s
numeric host _ = none

unfoldable pub key_of : Host → Option Json → Option String
key_of host none = none
key_of host (some v) = some (host.sprint v)

-- The group's name; `none` where the event does not have the field to group by.
unfoldable pub group_key : Host → String → Json → Option String
unfolding key_of
group_key host group_by original =
    if is_blank group_by then some "" else key_of host (extract_value original group_by)

-- `!groupState.hasLast || math.Abs(currentVal-groupState.lastVal) >= cfg.Delta`
unfoldable pub passes : Host → Float64 → Option Float → Float → Bool
passes host delta none current = true
passes host delta (some last) current = reaches host.far current last delta

-- The part that the mutex guards.
unfoldable pub judge : Host → Float64 → String → Float → Map Float → Map Float × Bool
unfolding passes
judge host delta group current states =
    if passes host delta (get states group) current
    then (put states group current, true)
    else (states, false)

-- Without a number or a group the event passes, and no state changes.
unfoldable pub measure :
    Host → Float64 → Option Float → Option String → Map Float → Map Float × Bool
unfolding judge
measure host delta (some current) (some group) states = judge host delta group current states
measure host delta _ _ states = (states, true)

unfoldable pub measure_decoded : Host → ThresholdConfig → Option Json → Map Float → Map Float × Bool
unfolding measure numeric group_key
measure_decoded host cfg none states = (states, true)
measure_decoded host cfg (some original) states =
    measure host cfg.delta (numeric host (extract_value original cfg.path))
      (group_key host cfg.group_by original) states

unfoldable pub threshold_events : Host → ThresholdConfig → Middleware
unfolding measure_decoded
threshold_events host cfg next topic event s =
    if is_empty event.payload
    then next topic event s
    else let (states, pass) = measure_decoded host cfg (host.unmarshal event.payload) s.threshold in
      if pass
      then next topic event (record s { threshold = states })
      else (record s { threshold = states; threshold_drops = s.threshold_drops + 1 }, success)

unfoldable pub new_threshold : Host → Option ThresholdConfig → Option Middleware
new_threshold host none = none
new_threshold host (some cfg) =
    if not cfg.enabled || is_blank cfg.path then none else some (threshold_events host cfg)
