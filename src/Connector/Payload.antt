-- ===== src/Connector/Payload.antt =====
-- internal/connector: the payload that every source makes of the bytes it reads.
use nephtys.Prelude.{Bool, true, ◌≡◌, if◌then◌else◌, both-branches}
use nephtys.Domain.Event.{Bytes}

-- `json.Valid`, the wrapped form of a text that is not JSON, `strings.TrimSpace`.
pub record Codec : Type 0 where
  pub valid : Bytes → Bool
  pub wrap : Bytes → Bytes
  pub trim_space : Bytes → Bytes

-- JSON stays as it is, any other body is wrapped as a JSON string.
unfoldable pub pack : Codec → Bytes → Bytes
pack codec body = if codec.valid body then body else codec.wrap body

pub pack-valid :
    (codec : Codec)
    → ((b : Bytes) → codec.valid (codec.wrap b) ≡ true)
    → (body : Bytes) → codec.valid (pack codec body) ≡ true
unfolding pack
pack-valid codec wraps body =
    both-branches (λ b. codec.valid b ≡ true) (codec.valid body) (λ e. e) (λ _. wraps body)
