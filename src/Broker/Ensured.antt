-- ===== src/Broker/Ensured.antt =====
-- internal/broker/nats.go: what EnsureStream leaves on the server, and what /readyz says of a
-- connection.
use nephtys.Prelude.{◌≡◌, refl, ap, ◌↔◌, String, true, Option, none, some, List, is_some, not}
use nephtys.Prelude.Result.{Result, ok, err}
use nephtys.Broker.Connection.{
  Broker, BrokerError, StreamConfig, Info, found, stream_not_found, failed, JetStream,
  stream_config, or_error, ensured, ensure_stream, Status, connected, connecting, reconnecting,
  disconnected, closed, draining_subs, draining_pubs, unknown_status, is_connected_status,
  conn_ready, status_name, jet_stream_available,
}
use nephtys.Server.Health.{readyz, readyz_iff_both}

-- What the client documents: a stream that was added or updated is there as it was configured.
pub record Documented (js : JetStream) (view : js.State → String → Option StreamConfig)
    : Type 0 where
  pub add_lem :
      (cfg : StreamConfig) (s t : js.State)
      → js.add_stream cfg s ≡ ok t
      → view t cfg.name ≡ some cfg
  pub update_lem :
      (cfg : StreamConfig) (s t : js.State)
      → js.update_stream cfg s ≡ ok t
      → view t cfg.name ≡ some cfg

or_error-eq-ok :
    {S : Type 0} (wrap : String → BrokerError) (r : Result String S) (s : S)
    → or_error wrap r ≡ ok s
    → r ≡ ok s
or_error-eq-ok wrap (ok s') s h = let same : s' ≡ s = cc in ap ok same
or_error-eq-ok wrap (err e) s h = cc

module _ (js : JetStream) (view : js.State → String → Option StreamConfig)
    (documented : Documented js view) where
  ensured_by :
      (cfg : StreamConfig) (info : Info) (s t : js.State)
      → ensured js cfg info s ≡ ok t
      → view t cfg.name ≡ some cfg
  ensured_by cfg (failed e) s t h = cc
  ensured_by cfg stream_not_found s t h = documented.add_lem cfg s t (or_error-eq-ok _ _ t h)
  ensured_by cfg found s t h = documented.update_lem cfg s t (or_error-eq-ok _ _ t h)

  -- An EnsureStream that returns no error leaves the stream under its name with these subjects and
  -- with the limits of the broker's configuration, whether it was there before or not.
  stream_ensured :
      (b : Broker) (name : String) (subjects : List String) (s t : js.State)
      → ensure_stream js b name subjects s ≡ ok t
      → view t name ≡ some (stream_config b name subjects)
  unfolding ensure_stream
  stream_ensured b name subjects s t h =
      ensured_by (stream_config b name subjects) (js.stream_info name s) s t h

is_connected_status-connected :
    (status : Status) → is_connected_status status ≡ true → status ≡ connected
is_connected_status-connected connected h = refl
is_connected_status-connected connecting h = cc
is_connected_status-connected reconnecting h = cc
is_connected_status-connected disconnected h = cc
is_connected_status-connected closed h = cc
is_connected_status-connected draining_subs h = cc
is_connected_status-connected draining_pubs h = cc
is_connected_status-connected unknown_status h = cc

is_some-none : (e : Option String) → not (is_some e) ≡ true → e ≡ none
is_some-none none h = refl
is_some-none (some e) h = cc

-- /readyz answers 200 exactly for a connection that is up, neither connecting nor draining, on which
-- JetStream answers.
readyz-connected :
    (status : Status) (account_error : Option String)
    → (readyz (conn_ready status) (jet_stream_available account_error)).code ≡ 200
      ↔ (status ≡ connected) × (account_error ≡ none)
unfolding conn_ready jet_stream_available
readyz-connected status account_error =
    let both =
      (readyz_iff_both (is_connected_status status) (status_name status)
        (jet_stream_available account_error)).0 in
    (
      (λ h. (
        is_connected_status-connected status (both.0 h).0,
        is_some-none account_error (both.0 h).1,
      )),
      (λ up. both.1 (ap is_connected_status up.0, ap jet_stream_available up.1)),
    )
