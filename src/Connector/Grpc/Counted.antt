-- ===== src/Connector/Grpc/Counted.antt =====
-- internal/connector/grpc.go: what the processed count says.
use nephtys.Prelude.{
  ℕ, ◌+◌, ◌≡◌, refl, ap, String, Option, none, some, List, [], ◌∷◌, ◌++◌, length, arith, All,
}
use nephtys.Prelude.Result.{ok}
use nephtys.Domain.Event.{StreamEvent}
use nephtys.Connector.Payload.{Codec}
use nephtys.Connector.Grpc.{
  EventRequest, Receipt, received, end_of_stream, broken, grpc_event, Answer, also, unless_failed,
  stream_events,
}

abbrev pub requests : List (ℕ × EventRequest) → List Receipt
requests [] = []
requests ((now, req) ∷ rs) = received now req ∷ requests rs

abbrev pub events : Codec → String → List (ℕ × EventRequest) → List StreamEvent
events codec id [] = []
events codec id ((now, req) ∷ rs) = grpc_event codec id now req ∷ events codec id rs

-- The requests of a client before it ends its stream.
unfoldable pub requested : Codec → String → List Receipt → List StreamEvent
requested codec id (received now req ∷ rs) = grpc_event codec id now req ∷ requested codec id rs
requested codec id _ = []

module _ (codec : Codec) (publish : StreamEvent → Option String) (id : String) where
  abbrev Accepts : List StreamEvent → Type 0
  Accepts es = All (λ e. publish e ≡ none) es

  all_accepted :
      (count : ℕ) (rs : List (ℕ × EventRequest)) (more : List Receipt)
      → Accepts (events codec id rs)
      → stream_events codec publish id count (requests rs ++ end_of_stream ∷ more)
        ≡ record { called_with = events codec id rs; result = ok (count + length rs) }
  unfolding stream_events
  all_accepted count [] more a = ground arith
  all_accepted count ((now, req) ∷ rs) more (p, a) =
      ground (arith, p, all_accepted (count + 1) rs more a)

  abbrev Counts : ℕ → ℕ → List StreamEvent → Answer → Type 0
  Counts count n wanted a =
      a.result ≡ ok n
      → (a.called_with ≡ wanted) × (n ≡ count + length a.called_with) × Accepts a.called_with

  step :
      (count n : ℕ) (event : StreamEvent) (wanted : List StreamEvent) (o : Option String)
      → publish event ≡ o
      → (rest : Answer) → Counts (count + 1) n wanted rest
      → Counts count n (event ∷ wanted) (also event (unless_failed o rest))
  step count n event wanted none p rest c e =
      let (all, same, a) = c e in (ap (◌∷◌ event) all, omega (arith, same), (p, a))
  step count n event wanted (some x) p rest c e = cc

  counted :
      (count n : ℕ) (receipts : List Receipt)
      → Counts count n (requested codec id receipts) (stream_events codec publish id count receipts)
  unfolding stream_events requested
  counted count n [] e = cc
  counted count n (end_of_stream ∷ rs) e = (refl, ground (arith, e), tt)
  counted count n (broken x ∷ rs) e = cc
  counted count n (received now req ∷ rs) e =
      step count n (grpc_event codec id now req) (requested codec id rs)
        (publish (grpc_event codec id now req)) refl (stream_events codec publish id (count + 1) rs)
        (counted (count + 1) n rs) e

  -- A client that is answered a count lost nothing: publish was called with every request before the
  -- end of the stream, in order, it accepted each of them, and the count is their number.
  pub count_is_accepted :
      (receipts : List Receipt) (n : ℕ)
      → (stream_events codec publish id 0 receipts).result ≡ ok n
      → let sent = (stream_events codec publish id 0 receipts).called_with in
        (sent ≡ requested codec id receipts) × (n ≡ length sent) × All (λ e. publish e ≡ none) sent
  count_is_accepted receipts n e =
      let (all, same, a) = counted 0 n receipts e in (all, omega (arith, same), a)
