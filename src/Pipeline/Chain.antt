-- ===== src/Pipeline/Chain.antt =====
-- internal/pipeline/pipeline.go: handlers, middlewares, the chain, and paths into a payload. The
-- variables that the middlewares' closures share between calls are one record, which every handler
-- takes and returns.
use nephtys.Prelude.{ℕ, String, Option, none, some, List, [], ◌∷◌}
use nephtys.Prelude.Int.{ℤ, pos}
use nephtys.Prelude.Map.{Map}
use nephtys.Domain.Event.{StreamEvent}
use nephtys.Host.Json.{Json, arr, obj, get_field, get_item}
use nephtys.Host.Float.{Float}
use nephtys.Host.Number.{atoi, split_dots}
use nephtys.Pipeline.Dedup.{Lru}
use nephtys.Pipeline.Generation.{Generation}

-- How a call of a handler ends: with an error or with none; waiting on a full channel; in a panic.
pub data Outcome : Type 0 where
  success parked panicked : Outcome
  failed : String → Outcome

pub record ChainState : Type 0 where
  pub now : ℕ  -- what time.Now gives
  pub filter_drops : ℕ
  pub dedup : Lru
  pub threshold : Map Float  -- the last value of each group
  pub threshold_drops : ℕ
  pub generation : Generation
  pub published : List (String × StreamEvent)  -- the calls of the terminal handler, in order

abbrev pub Handler : Type 0
Handler = String → StreamEvent → ChainState → ChainState × Outcome

abbrev pub Middleware : Type 0
Middleware = Handler → Handler

-- The loop from the last middleware to the first leaves the first one outermost.
unfoldable pub execute : List Middleware → Handler → Handler
execute [] publish = publish
execute (m ∷ ms) publish = m (execute ms publish)

-- `idx < 0 || idx >= len(currentValue)` is `none`.
unfoldable pub at_index : Option ℤ → Json → Option Json
at_index (some (pos i)) (arr vs) = get_item i vs
at_index _ _ = none

unfoldable pub step_into : String → Json → Option Json
unfolding at_index
step_into part (obj fs) = get_field part fs
step_into part (arr vs) = at_index (atoi part) (arr vs)
step_into part _ = none

abbrev pub or_stop : Option Json → (Json → Option Json) → Option Json
or_stop none k = none
or_stop (some v) k = k v

unfoldable pub walk : List String → Json → Option Json
unfolding step_into
walk [] current = some current
walk (part ∷ parts) current = or_stop (step_into part current) (walk parts)

unfoldable pub extract_value : Json → String → Option Json
unfolding walk
extract_value value path = walk (split_dots path) value
