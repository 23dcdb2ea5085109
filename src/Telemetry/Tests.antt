-- ===== src/Telemetry/Tests.antt =====
-- A registry that is the function of its values, and the series of two streams in it.
use nephtys.Prelude.{◌≡◌, refl, ℕ, String, Option, none, some, if◌then◌else◌}
use nephtys.Domain.Event.{running}
use nephtys.Server.Manager.Info.{metric_state}
use nephtys.Telemetry.{
  Family, events_dropped, Series, Registry, state_of, set_stream_state, delete_stream_series,
}
use nephtys.Telemetry.Life.{in_family, same, Documented, one_hot_until_removed}

abbrev Values : Type 0
Values = Series → Option ℕ

abbrev set_value : Series → Option ℕ → Values → Values
set_value s v r t = if same s t then v else r t

abbrev clear : Family → String → Values → Values
clear family id r t = if in_family family id t then none else r t

abbrev values : Registry
values = record {
  State = Values;
  set = λ s v r. set_value s (some v) r;
  delete_label_values = λ s r. set_value s none r;
  delete_partial_match = clear;
}

abbrev read : Values → Series → Option ℕ
read r t = r t

values-Documented : Documented values read
values-Documented = record {
  set_lem = λ s t v r. refl;
  delete_lem = λ s t r. refl;
  partial_lem = λ family id t r. refl;
}

-- Ten dropped events of every stream.
abbrev dropped_ten : Values
dropped_ten t = if in_family events_dropped t.stream_id t then some 10 else none

abbrev filtered : String → Series
filtered id = record { family = events_dropped; stream_id = id; label = "filter" }

abbrev connected : Values
connected = set_stream_state values "feed" (metric_state running) dropped_ten

one_hot_until_removed_example :
    (read connected (state_of "feed" "connected") ≡ some 1)
    × (read connected (state_of "feed" "stopped") ≡ some 0)
    × (read (delete_stream_series values "feed" connected) (filtered "feed") ≡ none)
one_hot_until_removed_example =
    one_hot_until_removed values read values-Documented "feed" "stopped" running (filtered "feed")
      dropped_ten refl tt

other_kept : read (delete_stream_series values "feed" connected) (filtered "ticker") ≡ some 10
unfolding delete_stream_series set_stream_state
other_kept = refl
