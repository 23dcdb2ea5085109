-- ===== src/Connector/RestPoller/Ready.antt =====
-- internal/connector/rest_poller.go: when a source reports itself ready, and what it publishes.
use nephtys.Prelude.{
  ℕ, ◌+◌, ◌≡◌, Bool, false, some, List, [], ◌∷◌, ◌++◌, ◌&&◌, ◌||◌, not, if◌then◌else◌, is_empty,
  ltb, leb,
}
use nephtys.Domain.Event.{StreamEvent}
use nephtys.Connector.Payload.{Codec}
use nephtys.Connector.RestPoller.{RestPollerSource, Exchange, answered, poll_event, Session}

abbrev pub is_success : ℕ → Bool
is_success status = leb 200 status && ltb status 300

-- Whether the endpoint answered: with a status of success and a body that was read.
unfoldable pub reached : List (ℕ × Exchange) → Bool
reached [] = false
reached ((now, answered status (some body)) ∷ xs) = is_success status || reached xs
reached (x ∷ xs) = reached xs

-- The events of the answers that carry something.
unfoldable pub events : Codec → RestPollerSource → List (ℕ × Exchange) → List StreamEvent
events codec r [] = []
events codec r ((now, answered status (some body)) ∷ xs) =
    let rest = events codec r xs in
    if is_success status && not (is_empty body) then poll_event codec r.id now body ∷ rest else rest
events codec r (x ∷ xs) = events codec r xs

module _ (codec : Codec) (r : RestPollerSource) where
  abbrev Ran : List (ℕ × Exchange) → Session → Session → Type 0
  Ran xs s t =
      (t.published ≡ s.published ++ events codec r xs)
      × (t.reported ≡ (s.reported || reached xs))
      × (t.ready_calls ≡ s.ready_calls + (if not s.reported && reached xs then 1 else 0))
