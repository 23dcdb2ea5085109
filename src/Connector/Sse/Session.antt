-- ===== src/Connector/Sse/Session.antt =====
-- internal/connector/sse.go: a session, from the request to the end of the stream. What the request
-- and the reader of the response answer are inputs.
use nephtys.Prelude.{
  ◌≡◌, ◌↔◌, refl, ℕ, String, Bool, true, false, Option, none, some, List, [], ◌∷◌, ◌||◌, is_empty,
  ltb, leb, if◌then◌else◌, both-branches,
}
use nephtys.Prelude.Map
use nephtys.Prelude.Map.{Map}
use nephtys.Domain.Event.{Bytes}
use nephtys.Domain.Config.{SseConfig, Headers}
use nephtys.Connector.Sse.{Codec, Reader, new_reader, read_loop}

pub record SseSource : Type 0 where
  pub id : String
  pub url : String
  pub topic : String
  pub config : Option SseConfig

unfoldable pub new_sse_source : String → String → String → Option SseConfig → SseSource
new_sse_source id url topic config = record { id = id; url = url; topic = topic; config = config }

-- `req.Header.Set`, with the canonical form of a name.
unfoldable pub set_headers : (String → String) → Headers → Map String → Map String
set_headers canonical [] m = m
set_headers canonical ((name, value) ∷ rest) m =
    set_headers canonical rest (Map.put m (canonical name) value)

abbrev pub configured : Option SseConfig → Headers
configured none = []
configured (some c) = c.headers

abbrev pub request_headers : (String → String) → SseSource → Map String
request_headers canonical s =
    set_headers canonical
      (("Accept", "text/event-stream")
        ∷ ("Cache-Control", "no-cache")
        ∷ ("Connection", "keep-alive")
        ∷ configured s.config)
      Map.empty

-- What the request answers: a status, the lines that were read and the error of the scanner.
pub data Answer : Type 0 where
  not_built not_connected : String → Answer
  response : ℕ → List Bytes → Option String → Answer

pub data RunError : Type 0 where
  build_request connect stream_ended stream_closed_by : String → RunError
  unexpected_status : ℕ → RunError

pub record Outcome : Type 0 where
  pub is_ready : Bool
  pub reader : Reader
  pub body_closed : Bool
  pub error : Option RunError

abbrev pub fails : RunError → Outcome
fails e = record { is_ready = false; reader = new_reader; body_closed = false; error = some e }

-- What ends the session: the cancellation, the error of the scanner, or the end of the stream.
abbrev pub end_of_stream : String → Bool → Option String → Option RunError
end_of_stream endpoint true e = none
end_of_stream endpoint false (some e) = some (stream_ended e)
end_of_stream endpoint false none = some (stream_closed_by endpoint)

-- Run; `redact` is redactURL, and the context may be cancelled by the time that the loop is over.
unfoldable pub run_source : Codec → (String → String) → SseSource → Answer → Bool → Outcome
unfolding read_loop
run_source codec redact s (not_built e) cancelled = fails (build_request e)
run_source codec redact s (not_connected e) cancelled = fails (connect e)
run_source codec redact s (response status lines e) cancelled =
    if ltb status 200 || leb 300 status
    then record (fails (unexpected_status status)) { body_closed = true }
    else record {
      is_ready = true;
      reader = read_loop codec lines new_reader;
      body_closed = true;
      error = end_of_stream (redact s.url) cancelled e;
    }

end_of_stream-none :
    (endpoint : String) (cancelled : Bool) (e : Option String)
    → (end_of_stream endpoint cancelled e ≡ none) ↔ (cancelled ≡ true)
end_of_stream-none endpoint true e = ((λ h. refl), (λ h. refl))
end_of_stream-none endpoint false none = ((λ h. cc), (λ h. cc))
end_of_stream-none endpoint false (some e) = ((λ h. cc), (λ h. cc))

abbrev pub HasReason : Bool → Outcome → Type 0
HasReason cancelled o =
    ((o.error ≡ none) ↔ ((o.is_ready ≡ true) × (cancelled ≡ true)))
    × ((o.is_ready || is_empty o.reader.published) ≡ true)

-- A session returns without an error exactly if it was ready and was cancelled, so that every other
-- end gives the supervisor a reason; and nothing is published before it is ready.
pub ends_with_reason :
    (codec : Codec) (redact : String → String) (s : SseSource) (answer : Answer) (cancelled : Bool)
    → HasReason cancelled (run_source codec redact s answer cancelled)
unfolding run_source
ends_with_reason codec redact s (not_built e) cancelled = (((λ h. cc), (λ (r, c). cc)), refl)
ends_with_reason codec redact s (not_connected e) cancelled = (((λ h. cc), (λ (r, c). cc)), refl)
ends_with_reason codec redact s (response status lines e) cancelled =
    both-branches (HasReason cancelled) (ltb status 200 || leb 300 status)
      (λ _. (((λ h. cc), (λ (r, c). cc)), refl))
      (λ _. (
        (
          (λ h. (refl, (end_of_stream-none (redact s.url) cancelled e).0 h)),
          (λ (r, c). (end_of_stream-none (redact s.url) cancelled e).1 c),
        ),
        refl,
      ))
