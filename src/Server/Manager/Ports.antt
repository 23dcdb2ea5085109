-- ===== src/Server/Manager/Ports.antt =====
-- internal/server/manager.go: connectorPort and canonicalPort, the keys of the port claims.
use nephtys.Prelude.{ℕ, ◌≤◌, ◌≡◌, ap, sym, ◌∙◌, String, Option, none, some, if◌then◌else◌, ◌↔◌}
use nephtys.Prelude.Int.{ℤ, pos}
use nephtys.Prelude.Text.{str_eq, is_blank}
use nephtys.Domain.Config.{WebhookConfig, GrpcConfig, StreamSourceConfig}
use nephtys.Host.Number.{atoi, max_int}
use nephtys.Host.Decimal.{itoa, atoi-itoa}

abbrev spelled : String → Option ℤ → String
spelled raw none = raw
spelled raw (some port) = itoa port

unfoldable pub canonical_port : String → String
canonical_port raw = spelled raw (atoi raw)

unfoldable pub port_or : String → String → String
unfolding canonical_port
port_or def port = if is_blank port then def else canonical_port port

abbrev pub webhook_port : Option WebhookConfig → String
webhook_port none = "8081"
webhook_port (some wh) = port_or "8081" wh.port

abbrev pub grpc_port : Option GrpcConfig → String
grpc_port none = "50051"
grpc_port (some g) = port_or "50051" g.port

-- The local port that a configuration claims, blank for a kind that binds nothing.
unfoldable pub connector_port : StreamSourceConfig → String
unfolding port_or
connector_port cfg =
    if str_eq cfg.kind "webhook"
    then webhook_port cfg.webhook
    else if str_eq cfg.kind "grpc"
    then grpc_port cfg.grpc
    else ""

canonical_port-eq :
    (raw : String) (n : ℕ) → atoi raw ≡ some (pos n) → canonical_port raw ≡ itoa (pos n)
unfolding canonical_port
canonical_port-eq raw n e = ap (spelled raw) e

-- Two spellings that strconv.Atoi reads as numbers (each below 2 ^ 63) get the same claim key
-- exactly if the numbers are equal.
pub one_claim_per_port :
    (a b : String) (m n : ℕ)
    → atoi a ≡ some (pos m)
    → atoi b ≡ some (pos n)
    → m ≤ max_int
    → n ≤ max_int
    → (canonical_port a ≡ canonical_port b) ↔ (m ≡ n)
one_claim_per_port a b m n p q u v = (
  (λ e.
      let same : some (pos m) ≡ some (pos n) =
        sym (atoi-itoa m u)
        ∙ ap atoi (sym (canonical_port-eq a m p) ∙ e ∙ canonical_port-eq b n q)
        ∙ atoi-itoa n v in
      cc),
  (λ e. canonical_port-eq a m p ∙ ap (λ k. itoa (pos k)) e ∙ sym (canonical_port-eq b n q)),
)
