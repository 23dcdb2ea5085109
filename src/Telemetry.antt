-- ===== src/Telemetry.antt =====
-- internal/telemetry/metrics.go: the series of the streams in the registry of Prometheus, whose
-- client is a parameter.
pub mod Life
mod Tests
use nephtys.Prelude.{ℕ, String, Bool, Option, List, [], ◌∷◌, ◌==◌, ◌&&◌, if◌then◌else◌}
use nephtys.Prelude.Text.{str_eq}

-- The vectors that the process registers.
pub data Family : Type 0 where
  events_ingested events_dropped bytes_ingested bytes_published events_published : Family
  stream_state event_processing_duration dedup_cache_size dedup_cache_capacity : Family
  stream_restarts dedup_cache_evictions : Family

-- A series of a vector: the stream and the second label, a state or a middleware; it is empty where
-- the vector has only one.
pub record Series : Type 0 where
  pub family : Family
  pub stream_id : String
  pub label : String

-- `prometheus.Registry`, as far as the program writes to it.
pub record Registry : Type 1 where
  pub State : Type 0
  pub set : Series → ℕ → State → State
  pub delete_label_values : Series → State → State
  -- DeletePartialMatch of a stream
  pub delete_partial_match : Family → String → State → State

abbrev pub stream_states : List String
stream_states = "connected" ∷ "reconnecting" ∷ "errored" ∷ "stopped" ∷ []

abbrev pub state_of : String → String → Series
state_of id state = record { family = stream_state; stream_id = id; label = state }

abbrev pub one : Family → String → Series
one family id = record { family = family; stream_id = id; label = "" }

abbrev pub dedup_of : String → List Series
dedup_of id =
    one dedup_cache_size id ∷ one dedup_cache_capacity id ∷ one dedup_cache_evictions id ∷ []

abbrev pub totals_of : String → List Series
totals_of id =
    one stream_restarts id
    ∷ one events_ingested id
    ∷ one events_published id
    ∷ one bytes_ingested id
    ∷ one bytes_published id
    ∷ one event_processing_duration id
    ∷ []

-- The series that the loop of DeleteStreamState goes through.
abbrev pub states_of : List String → String → List Series
states_of [] id = []
states_of (state ∷ states) id = state_of id state ∷ states_of states id

module _ (registry : Registry) where
  -- The loop of SetStreamState.
  unfoldable pub set_states : List String → String → String → registry.State → registry.State
  set_states [] id current r = r
  set_states (state ∷ states) id current r =
      set_states states id current
        (registry.set (state_of id state) (if str_eq state current then 1 else 0) r)

  unfoldable pub set_stream_state : String → String → registry.State → registry.State
  unfolding set_states
  set_stream_state id current r = set_states stream_states id current r

  -- A series after the other.
  unfoldable pub delete_each : List Series → registry.State → registry.State
  delete_each [] r = r
  delete_each (s ∷ ss) r = delete_each ss (registry.delete_label_values s r)

  unfoldable pub delete_stream_state : String → registry.State → registry.State
  unfolding delete_each
  delete_stream_state id r = delete_each (states_of stream_states id) r

  unfoldable pub delete_dedup_series : String → registry.State → registry.State
  unfolding delete_each
  delete_dedup_series id r = delete_each (dedup_of id) r

  unfoldable pub delete_stream_series : String → registry.State → registry.State
  unfolding delete_stream_state delete_dedup_series delete_each
  delete_stream_series id r =
      registry.delete_partial_match events_dropped id
        (delete_each (totals_of id) (delete_dedup_series id (delete_stream_state id r)))
