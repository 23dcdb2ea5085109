-- ===== src/Connector/Webhook/Accepted.antt =====
-- internal/connector/webhook.go: which requests are accepted, and what is published of them.
use nephtys.Prelude.{ℕ, ◌≡◌, ◌≢◌, String, false, Option, none, some, is_empty, ◌⊎◌}
use nephtys.Domain.Event.{Bytes, StreamEvent}
use nephtys.Connector.Payload.{Codec}
use nephtys.Connector.Webhook.{WebhookSource, Request, expected, webhook_event, answer}

module _ (codec : Codec) (publish : String → StreamEvent → Option String) (w : WebhookSource)
    (now : ℕ) where
  -- A request that gets as far as publish: a POST with the configured token, if there is one, and a
  -- body that was read and is not empty.
  pub record IsWelcome (req : Request) (body : Bytes) : Type 0 where
    pub is_post : req.method ≡ "POST"
    pub token : w.config.auth_token ≢ "" → req.authorization ≡ expected w.config
    pub read : req.body ≡ some body
    pub filled : is_empty body ≡ false

  Verdict : Request → Option StreamEvent × ℕ → Type 0
  Verdict req r =
      ((body : Bytes) × IsWelcome req body
        × (let event = webhook_event codec w.id now body in
            r ≡ answer (publish w.topic event) event))
      ⊎ ((r.0 ≡ none) × (r.1 ≢ 202) × ((body : Bytes) → ¬ IsWelcome req body))
