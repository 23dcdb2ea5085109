-- ===== src/Server/Redact/Hidden.antt =====
-- internal/server/redact.go: which parts of a configuration the API can tell apart.
use nephtys.Prelude.{
  ◌≡◌, refl, ap, ◌∙◌, sym, String, Bool, Option, none, some, List, [], ◌∷◌, ◌++◌, if◌then◌else◌,
  is_empty, map, arith, length, eq_iff,
}
use nephtys.Domain.Config.{
  Headers, WebhookConfig, SseConfig, RestPollerConfig, WebsocketConfig, StreamSourceConfig,
}
use nephtys.Host.{Url}
use nephtys.Host.Text.{Text, split, join, cut}
use nephtys.Server.Redact.{
  redacted, withhold_segment, withhold_value, withhold_param, redact_path_segments,
  redact_query_values, redact_parsed, redact_headers, redact_frames, redact_token, redact_webhook,
  redact_sse, redact_rest_poller, redact_websocket, shown, redact_url, redact_config,
}
use nephtys.Server.Redact.Shape.{redact_path-eq, redact_query-eq}
use nephtys.Server.Redact.Structure.{
  label_of, label, SameEndpoint, Alike, SameUrl, SameWebhook, names, SameSse, SamePoller,
  SameFrames, SameStructure,
}

marker_unless : Bool → Text
marker_unless b = if b then [] else redacted

map-withhold_segment :
    (parts : List Text) → map withhold_segment parts ≡ map marker_unless (map is_empty parts)
unfolding withhold_segment marker_unless
map-withhold_segment [] = refl
map-withhold_segment ([] ∷ ss) = ap (◌∷◌ []) (map-withhold_segment ss)
map-withhold_segment ((c ∷ s) ∷ ss) = ap (◌∷◌ redacted) (map-withhold_segment ss)

of_label : Option Text × Bool → Text
of_label (some key, b) = key ++ b'=' ∷ redacted
of_label (none, b) = if b then [] else redacted

withhold_value-of_label :
    (param : Text) (c : Text × Option Text) → withhold_value param c ≡ of_label (label_of param c)
unfolding of_label
withhold_value-of_label param (key, some value) = refl
withhold_value-of_label [] (key, none) = refl
withhold_value-of_label (c ∷ s) (key, none) = refl

map-withhold_param :
    (params : List Text) → map withhold_param params ≡ map of_label (map label params)
unfolding withhold_param
map-withhold_param [] = refl
map-withhold_param (s ∷ ss) =
    ap (λ x. x ∷ map withhold_param ss) (withhold_value-of_label s (cut b'=' s))
    ∙ ap (◌∷◌ (of_label (label s))) (map-withhold_param ss)

path_hides :
    (p q : Text)
    → map is_empty (split b'/' p) ≡ map is_empty (split b'/' q)
    → redact_path_segments p ≡ redact_path_segments q
path_hides p q e =
    redact_path-eq p
    ∙ ap (join b'/') (
        map-withhold_segment (split b'/' p)
        ∙ ap (map marker_unless) e
        ∙ sym (map-withhold_segment (split b'/' q)))
    ∙ sym (redact_path-eq q)

query_hides :
    (p q : Text)
    → map label (split b'&' p) ≡ map label (split b'&' q)
    → redact_query_values p ≡ redact_query_values q
query_hides p q e =
    redact_query-eq p
    ∙ ap (join b'&') (
        map-withhold_param (split b'&' p)
        ∙ ap (map of_label) e
        ∙ sym (map-withhold_param (split b'&' q)))
    ∙ sym (redact_query-eq q)

parsed_hides : (u v : Url) → SameEndpoint u v → redact_parsed u ≡ redact_parsed v
unfolding redact_parsed
parsed_hides u v s =
    ground
      (arith, s, path_hides u.path v.path s.segments, query_hides u.raw_query v.raw_query s.labels)

headers_hide : (a b : Headers) → names a ≡ names b → redact_headers a ≡ redact_headers b
unfolding redact_headers
headers_hide [] [] e = refl
headers_hide [] ((n, v) ∷ b) e = cc
headers_hide ((n, v) ∷ a) [] e = cc
headers_hide ((n, v) ∷ a) ((m, w) ∷ b) e = ground (arith, e, headers_hide a b)

frames_hide : (a b : List String) → length a ≡ length b → redact_frames a ≡ redact_frames b
unfolding redact_frames
frames_hide [] [] e = refl
frames_hide [] (y ∷ b) e = ground (arith, e)
frames_hide (x ∷ a) [] e = ground (arith, e)
frames_hide (x ∷ a) (y ∷ b) e = ground (arith, e, frames_hide a b)

module _ (parse_url : String → Option Url) (show_url : Url → String) where
  shown_hides : (o p : Option Url) → Alike SameEndpoint o p → shown show_url o ≡ shown show_url p
  shown_hides none none s = refl
  shown_hides none (some v) s = absurd s
  shown_hides (some u) none s = absurd s
  shown_hides (some u) (some v) s = ap show_url (parsed_hides u v s)

  url_hides :
      (s t : String)
      → SameUrl parse_url s t
      → redact_url parse_url show_url s ≡ redact_url parse_url show_url t
  unfolding redact_url
  url_hides s t (b, a) =
      ground (arith, b, eq_iff s "", eq_iff t "", shown_hides (parse_url s) (parse_url t) a)

  webhook_hides :
      (a b : Option WebhookConfig) → Alike SameWebhook a b → redact_webhook a ≡ redact_webhook b
  unfolding redact_token
  webhook_hides none none s = refl
  webhook_hides none (some b) s = absurd s
  webhook_hides (some a) none s = absurd s
  webhook_hides (some a) (some b) s =
      ground (arith, s, eq_iff a.auth_token "", eq_iff b.auth_token "")

  sse_hides : (a b : Option SseConfig) → Alike SameSse a b → redact_sse a ≡ redact_sse b
  sse_hides none none s = refl
  sse_hides none (some b) s = absurd s
  sse_hides (some a) none s = absurd s
  sse_hides (some a) (some b) s = ground (arith, headers_hide a.headers b.headers s)

  poller_hides :
      (a b : Option RestPollerConfig)
      → Alike SamePoller a b
      → redact_rest_poller a ≡ redact_rest_poller b
  poller_hides none none s = refl
  poller_hides none (some b) s = absurd s
  poller_hides (some a) none s = absurd s
  poller_hides (some a) (some b) (i, m, n) =
      ground (arith, i, m, headers_hide a.headers b.headers n)

  websocket_hides :
      (a b : Option WebsocketConfig)
      → Alike SameFrames a b
      → redact_websocket a ≡ redact_websocket b
  websocket_hides none none s = refl
  websocket_hides none (some b) s = absurd s
  websocket_hides (some a) none s = absurd s
  websocket_hides (some a) (some b) s =
      ground (arith, frames_hide a.on_connect_send b.on_connect_send s)

  -- Two configurations that differ only in what could be a credential are shown alike.
  pub config_hides :
      (a b : StreamSourceConfig)
      → SameStructure parse_url a b
      → redact_config parse_url show_url a ≡ redact_config parse_url show_url b
  unfolding redact_config
  config_hides a b s = ground (
    arith,
    s.id,
    s.kind,
    s.topic,
    s.metadata,
    s.grpc,
    s.pipeline,
    s.restart,
    url_hides a.url b.url s.url,
    webhook_hides a.webhook b.webhook s.webhook,
    sse_hides a.sse b.sse s.sse,
    poller_hides a.rest_poller b.rest_poller s.rest_poller,
    websocket_hides a.websocket b.websocket s.websocket,
  )
