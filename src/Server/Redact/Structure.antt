-- ===== src/Server/Redact/Structure.antt =====
-- internal/server/redact.go: when two configurations differ only in what could be a credential.
use nephtys.Prelude.{
  ◌≡◌, String, Bool, false, Option, none, some, List, [], ◌∷◌, is_empty, map, length,
}
use nephtys.Prelude.Text.{is_blank}
use nephtys.Domain.Config.{
  Headers, WebhookConfig, SseConfig, RestPollerConfig, WebsocketConfig, StreamSourceConfig,
}
use nephtys.Host.{Url}
use nephtys.Host.Text.{Text, split, cut}

-- What a parameter shows: its key, or that it has none, and whether it is empty.
abbrev pub label_of : Text → Text × Option Text → Option Text × Bool
label_of param (key, some value) = (some key, false)
label_of param (key, none) = (none, is_empty param)

abbrev pub label : Text → Option Text × Bool
label param = label_of param (cut b'=' param)

-- Two URLs that differ in userinfo, fragment, values of parameters and the text of path segments.
pub record SameEndpoint (u v : Url) : Type 0 where
  pub scheme : u.scheme ≡ v.scheme
  pub opaque : u.opaque ≡ v.opaque
  pub host : u.host ≡ v.host
  pub omit_host : u.omit_host ≡ v.omit_host
  pub force_query : u.force_query ≡ v.force_query
  pub segments : map is_empty (split b'/' u.path) ≡ map is_empty (split b'/' v.path)
  pub labels : map label (split b'&' u.raw_query) ≡ map label (split b'&' v.raw_query)

-- Both are absent, or both are there and alike.
abbrev pub Alike : {A : Type 0} → (A → A → Type 0) → Option A → Option A → Type 0
Alike R none none = Unit {0}
Alike R none (some b) = ⊥
Alike R (some a) none = ⊥
Alike R (some a) (some b) = R a b

abbrev pub SameUrl : (String → Option Url) → String → String → Type 0
SameUrl parse_url s t = (is_blank s ≡ is_blank t) × Alike SameEndpoint (parse_url s) (parse_url t)

abbrev pub SameWebhook : WebhookConfig → WebhookConfig → Type 0
SameWebhook a b =
    (a.port ≡ b.port) × (a.path ≡ b.path) × (is_blank a.auth_token ≡ is_blank b.auth_token)

abbrev pub names : Headers → List String
names [] = []
names ((name, value) ∷ rest) = name ∷ names rest

abbrev pub SameSse : SseConfig → SseConfig → Type 0
SameSse a b = names a.headers ≡ names b.headers

abbrev pub SamePoller : RestPollerConfig → RestPollerConfig → Type 0
SamePoller a b =
    (a.interval ≡ b.interval) × (a.method ≡ b.method) × (names a.headers ≡ names b.headers)

abbrev pub SameFrames : WebsocketConfig → WebsocketConfig → Type 0
SameFrames a b = length a.on_connect_send ≡ length b.on_connect_send

-- Two configurations that differ only in what could be a credential.
pub record SameStructure (parse_url : String → Option Url) (a b : StreamSourceConfig) : Type 0 where
  pub id : a.id ≡ b.id
  pub kind : a.kind ≡ b.kind
  pub topic : a.topic ≡ b.topic
  pub metadata : a.metadata ≡ b.metadata
  pub grpc : a.grpc ≡ b.grpc
  pub pipeline : a.pipeline ≡ b.pipeline
  pub restart : a.restart ≡ b.restart
  pub url : SameUrl parse_url a.url b.url
  pub webhook : Alike SameWebhook a.webhook b.webhook
  pub sse : Alike SameSse a.sse b.sse
  pub rest_poller : Alike SamePoller a.rest_poller b.rest_poller
  pub websocket : Alike SameFrames a.websocket b.websocket
