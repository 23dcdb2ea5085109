-- ===== src/Telemetry/Life.antt =====
-- internal/telemetry/metrics.go: which series a stream has after its state is set and after it is
-- removed.
use nephtys.Prelude.{
  ◌≡◌, refl, ap, ◌∙◌, ℕ, String, Bool, true, false, ◌&&◌, ◌||◌, ◌==◌, Option, none, some, List, [],
  ◌∷◌, if◌then◌else◌, arith, any, eq_iff,
}
use nephtys.Prelude.Text.{str_eq}
use nephtys.Domain.Event.{SourceStatus, idle, connecting, running, reconnecting, error, stopped}
use nephtys.Server.Manager.Info.{metric_state}
use nephtys.Telemetry.{
  Family, events_ingested, events_dropped, bytes_ingested, bytes_published, events_published,
  stream_state, event_processing_duration, dedup_cache_size, dedup_cache_capacity, stream_restarts,
  dedup_cache_evictions, Series, Registry, stream_states, state_of, set_states, totals_of, dedup_of,
  set_stream_state, delete_each, states_of, delete_stream_state, delete_dedup_series,
  delete_stream_series,
}

abbrev index : Family → ℕ
index events_ingested = 0
index events_dropped = 1
index bytes_ingested = 2
index bytes_published = 3
index events_published = 4
index stream_state = 5
index event_processing_duration = 6
index dedup_cache_size = 7
index dedup_cache_capacity = 8
index stream_restarts = 9
index dedup_cache_evictions = 10

abbrev pub in_family : Family → String → Series → Bool
in_family family id t = index family == index t.family && str_eq id t.stream_id

abbrev pub same : Series → Series → Bool
same s t = in_family s.family s.stream_id t && str_eq s.label t.label

-- What the client of Prometheus documents of the value of a series, `none` where it does not exist.
pub record Documented (registry : Registry) (value : registry.State → Series → Option ℕ)
    : Type 0 where
  pub set_lem :
      (s t : Series) (v : ℕ) (r : registry.State)
      → value (registry.set s v r) t ≡ (if same s t then some v else value r t)
  pub delete_lem :
      (s t : Series) (r : registry.State)
      → value (registry.delete_label_values s r) t ≡ (if same s t then none else value r t)
  pub partial_lem :
      (family : Family) (id : String) (t : Series) (r : registry.State)
      → value (registry.delete_partial_match family id r) t
        ≡ (if in_family family id t then none else value r t)

-- The label of a series that the program writes.
abbrev pub IsWritten : Series → Type 0
IsWritten t = elim t.family [
  | stream_state ↦ (any (λ state. str_eq state t.label) stream_states) ≡ true
  | events_dropped ↦ Unit {0}
  | _ ↦ str_eq "" t.label ≡ true
]

-- What is written before, and what is written then.
and_before :
    (now later : Bool) (u v x y : Option ℕ)
    → (now ≡ true → u ≡ v)
    → x ≡ (if now then u else y)
    → (if later then v else x) ≡ (if now || later then v else y)
and_before true true u v x y e f = refl
and_before false true u v x y e f = refl
and_before true false u v x y e f = f ∙ e refl
and_before false false u v x y e f = f

-- The value of a state's series.
abbrev mark : String → String → ℕ
mark current state = if str_eq state current then 1 else 0

same-label : (id state : String) (t : Series) → same (state_of id state) t ≡ true → state ≡ t.label
same-label id state t h = (eq_iff state t.label).0 (ground arith)

abbrev is_any_of : List Series → Series → Bool
is_any_of ss t = any (λ s. same s t) ss

listed-is_any_of :
    (states : List String) (id state : String)
    → is_any_of (states_of states id) (state_of id state) ≡ any (λ s. str_eq s state) states
listed-is_any_of [] id state = refl
listed-is_any_of (s ∷ states) id state =
    let same_id : str_eq id id ≡ true = (eq_iff id id).1 refl in
    ap (λ b. (b && str_eq s state) || is_any_of (states_of states id) (state_of id state)) same_id
    ∙ ap (λ b. str_eq s state || b) (listed-is_any_of states id state)

metric_state-listed :
    (status : SourceStatus) → any (λ s. str_eq s (metric_state status)) stream_states ≡ true
metric_state-listed idle = refl
metric_state-listed connecting = refl
metric_state-listed running = refl
metric_state-listed reconnecting = refl
metric_state-listed stopped = refl
metric_state-listed error = refl

abbrev is_removed : String → Series → Bool
is_removed id t =
    ((is_any_of (states_of stream_states id) t || is_any_of (dedup_of id) t)
      || is_any_of (totals_of id) t)
    || in_family events_dropped id t

is_removed-IsWritten :
    (family : Family) (id stream label : String)
    → IsWritten (record { family = family; stream_id = stream; label = label })
    → is_removed id (record { family = family; stream_id = stream; label = label })
      ≡ str_eq id stream
is_removed-IsWritten events_ingested id stream label w = ground arith
is_removed-IsWritten events_dropped id stream label w = ground arith
is_removed-IsWritten bytes_ingested id stream label w = ground arith
is_removed-IsWritten bytes_published id stream label w = ground arith
is_removed-IsWritten events_published id stream label w = ground arith
is_removed-IsWritten stream_state id stream label w = ground arith
is_removed-IsWritten event_processing_duration id stream label w = ground arith
is_removed-IsWritten dedup_cache_size id stream label w = ground arith
is_removed-IsWritten dedup_cache_capacity id stream label w = ground arith
is_removed-IsWritten stream_restarts id stream label w = ground arith
is_removed-IsWritten dedup_cache_evictions id stream label w = ground arith

module _ (registry : Registry) (value : registry.State → Series → Option ℕ)
    (documented : Documented registry value) where
  delete_each-value :
      (ss : List Series) (t : Series) (r : registry.State)
      → value (delete_each registry ss r) t ≡ (if is_any_of ss t then none else value r t)
  unfolding delete_each
  delete_each-value [] t r = refl
  delete_each-value (s ∷ ss) t r =
      delete_each-value ss t (registry.delete_label_values s r)
      ∙ and_before (same s t) (is_any_of ss t) none none _ _ (λ h. refl)
          (documented.delete_lem s t r)

  removed_value :
      (id : String) (t : Series) (r : registry.State)
      → value (delete_stream_series registry id r) t ≡ (if is_removed id t then none else value r t)
  unfolding delete_stream_series delete_stream_state delete_dedup_series
  removed_value id t r =
      let states = is_any_of (states_of stream_states id) t in
      let dedup = is_any_of (dedup_of id) t in
      let totals = is_any_of (totals_of id) t in
      let r1 = delete_stream_state registry id r in
      let r2 = delete_dedup_series registry id r1 in
      documented.partial_lem events_dropped id t (delete_each registry (totals_of id) r2)
      ∙ and_before ((states || dedup) || totals) (in_family events_dropped id t) none none _ _
          (λ h. refl)
          (delete_each-value (totals_of id) t r2
            ∙ and_before (states || dedup) totals none none _ _ (λ h. refl)
                (delete_each-value (dedup_of id) t r1
                  ∙ and_before states dedup none none _ _ (λ h. refl)
                      (delete_each-value (states_of stream_states id) t r)))

  series_removed :
      (id : String) (t : Series) (r : registry.State)
      → IsWritten t
      → value (delete_stream_series registry id r) t
        ≡ (if str_eq id t.stream_id then none else value r t)
  series_removed id t r written =
      removed_value id t r
      ∙ ap (λ b. if b then none else value r t)
          (is_removed-IsWritten t.family id t.stream_id t.label written)

  set_states-value :
      (states : List String) (id current : String) (t : Series) (r : registry.State)
      → value (set_states registry states id current r) t
        ≡ (if is_any_of (states_of states id) t then some (mark current t.label) else value r t)
  unfolding set_states
  set_states-value [] id current t r = refl
  set_states-value (state ∷ states) id current t r =
      set_states-value states id current t (registry.set (state_of id state) (mark current state) r)
      ∙ and_before (same (state_of id state) t) (is_any_of (states_of states id) t)
          (some (mark current state)) (some (mark current t.label)) _ _
          (λ h. ap (λ l. some (mark current l)) (same-label id state t h))
          (documented.set_lem (state_of id state) t (mark current state) r)

  listed_value :
      (id state current : String) (r : registry.State)
      → any (λ s. str_eq s state) stream_states ≡ true
      → value (set_stream_state registry id current r) (state_of id state)
        ≡ some (mark current state)
  unfolding set_stream_state
  listed_value id state current r listed =
      set_states-value stream_states id current (state_of id state) r
      ∙ ap (λ b. if b then some (mark current state) else value r (state_of id state))
          (listed-is_any_of stream_states id state ∙ listed)

  state_one_hot :
      (id state : String) (status : SourceStatus) (r : registry.State)
      → any (λ s. str_eq s state) stream_states ≡ true
      → (value
            (set_stream_state registry id (metric_state status) r)
            (state_of id (metric_state status))
          ≡ some 1)
        × (value (set_stream_state registry id (metric_state status) r) (state_of id state)
            ≡ some (if str_eq state (metric_state status) then 1 else 0))
  state_one_hot id state status r listed =
      let current = metric_state status in
      (
        listed_value id current current r (metric_state-listed status)
            ∙ ap (λ b. some (if b then 1 else 0)) ((eq_iff current current).1 refl),
        listed_value id state current r listed,
      )

  -- SetStreamState of a reported status leaves the gauge of that state at 1, and the gauge of each
  -- of the four states at 1 or 0 as it is that state or not; DeleteStreamSeries after it leaves no
  -- series of the stream, of any vector, with any label that the program writes, and every series
  -- of the other streams as it was.
  pub one_hot_until_removed :
      (id state : String) (status : SourceStatus) (t : Series) (r : registry.State)
      → any (λ s. str_eq s state) stream_states ≡ true
      → IsWritten t
      → (value
            (set_stream_state registry id (metric_state status) r)
            (state_of id (metric_state status))
          ≡ some 1)
        × (value (set_stream_state registry id (metric_state status) r) (state_of id state)
            ≡ some (if str_eq state (metric_state status) then 1 else 0))
        × (value
              (delete_stream_series registry id
                (set_stream_state registry id (metric_state status) r))
              t
            ≡ (if str_eq id t.stream_id
                then none
                else value (set_stream_state registry id (metric_state status) r) t))
  one_hot_until_removed id state status t r listed written =
      let hot = state_one_hot id state status r listed in
      (
        hot.0,
        hot.1,
        series_removed id t (set_stream_state registry id (metric_state status) r) written,
      )
