-- ===== src/Server/Validate.antt =====
-- internal/server/validate.go: which stream configurations are accepted.
pub mod Fields
use nephtys.Prelude.{
  ℕ, suc, ◌+◌, ◌*◌, String, Bool, true, false, Option, none, some, List, [], ◌∷◌, ◌++◌, not, ◌&&◌,
  ◌||◌, if◌then◌else◌, leb, is_some,
}
use nephtys.Prelude.Int.{ℤ, pos, negsuc, ltb_ℤ}
use nephtys.Prelude.Lists.{all, any}
use nephtys.Prelude.Text.{str_eq, is_blank, codes}
use nephtys.Prelude.Result.{Result, ok, err, Check, ◌>>=◌, ◌>>◌, require}
use nephtys.Domain.Config.{
  RestartConfig, WebsocketConfig, SseConfig, GrpcConfig, RestPollerConfig, WebhookConfig,
  StreamSourceConfig,
}
use nephtys.Host.{Host, Url}
use nephtys.Pipeline.Validate.{validate_config, check_block}
use nephtys.Pipeline.Validate.Resolve.{ConfigError}
use Fields.{
  StreamError, id_required, id_invalid, kind_required, kind_unsupported, topic_required,
  topic_invalid, url_required, url_invalid, url_no_host, url_scheme, foreign_block, blank_frame,
  bad_pipeline, is_subject, validate_restart, validate_poll_interval, validate_poll_method,
  validate_headers, validate_port,
}

-- `connectorBlocks`: the kinds, and the block that each one reads.
unfoldable pub connector_block : String → Option String
connector_block kind =
    if any (str_eq kind) ("websocket" ∷ "sse" ∷ "rest_poller" ∷ "webhook" ∷ "grpc" ∷ [])
    then some kind
    else none

abbrev pub block_name {ℓ} : {A : Type ℓ} → String → Option A → List String
block_name name none = []
block_name name (some b) = name ∷ []

unfoldable pub present_connector_blocks : StreamSourceConfig → List String
present_connector_blocks cfg =
    block_name "websocket" cfg.websocket
    ++ (block_name "sse" cfg.sse
        ++ (block_name "rest_poller" cfg.rest_poller
            ++ (block_name "webhook" cfg.webhook ++ block_name "grpc" cfg.grpc)))

unfoldable pub is_push_kind : String → Bool
is_push_kind kind = str_eq kind "webhook" || str_eq kind "grpc"

unfoldable pub scheme_fits : String → String → Bool
scheme_fits kind scheme =
    if str_eq kind "websocket"
    then str_eq scheme "ws" || str_eq scheme "wss"
    else if str_eq kind "rest_poller" || str_eq kind "sse"
    then str_eq scheme "http" || str_eq scheme "https"
    else true

unfoldable pub check_url : String → Option Url → Check StreamError
unfolding scheme_fits
check_url kind none = err url_invalid
check_url kind (some u) = do
  require (not (is_blank u.host)) url_no_host
  require (scheme_fits kind u.scheme) (url_scheme kind)

unfoldable pub validate_url : Host → StreamSourceConfig → Check StreamError
unfolding is_push_kind check_url
validate_url host cfg =
    if is_push_kind cfg.kind
    then ok tt
    else if is_blank cfg.url
    then err (url_required cfg.kind)
    else check_url cfg.kind (host.parse_url cfg.url)

abbrev pub is_block_of : String → Option String → Bool
is_block_of block none = false
is_block_of block (some own) = str_eq block own

unfoldable pub check_blocks_apply : Option String → String → List String → Check StreamError
check_blocks_apply own kind [] = ok tt
check_blocks_apply own kind (block ∷ blocks) =
    if is_block_of block own
    then check_blocks_apply own kind blocks
    else err (foreign_block block kind)

unfoldable pub check_frames : ℕ → List String → Check StreamError
check_frames i [] = ok tt
check_frames i (msg ∷ msgs) =
    if is_blank msg then err (blank_frame i) else check_frames (i + 1) msgs

unfoldable pub check_websocket : WebsocketConfig → Check StreamError
unfolding check_frames
check_websocket ws = check_frames 0 ws.on_connect_send

unfoldable pub check_rest_poller : Host → RestPollerConfig → Check StreamError
check_rest_poller host rp = do
  validate_poll_interval host rp.interval
  validate_poll_method rp.method
  validate_headers "rest_poller.headers" rp.headers

unfoldable pub check_sse : SseConfig → Check StreamError
check_sse sse = validate_headers "sse.headers" sse.headers

unfoldable pub check_port : String → String → Check StreamError
check_port path port = if is_blank port then ok tt else validate_port path port

unfoldable pub validate_connector : Host → StreamSourceConfig → Check StreamError
unfolding validate_url connector_block present_connector_blocks check_blocks_apply check_websocket
    check_rest_poller check_sse check_port
validate_connector host cfg = do
  validate_url host cfg
  check_blocks_apply (connector_block cfg.kind) cfg.kind (present_connector_blocks cfg)
  check_block check_websocket cfg.websocket
  check_block (check_rest_poller host) cfg.rest_poller
  check_block check_sse cfg.sse
  check_block (λ (wh : WebhookConfig). check_port "webhook.port" wh.port) cfg.webhook
  check_block (λ (g : GrpcConfig). check_port "grpc.port" g.port) cfg.grpc

abbrev pub from_pipeline : Check ConfigError → Check StreamError
from_pipeline (ok u) = ok tt
from_pipeline (err e) = err (bad_pipeline e)

unfoldable pub validate_stream_config : Host → StreamSourceConfig → Check StreamError
unfolding validate_connector connector_block
validate_stream_config host cfg = do
  require (not (is_blank cfg.id)) id_required
  require (is_subject cfg.id) id_invalid
  require (not (is_blank cfg.kind)) kind_required
  require (is_some (connector_block cfg.kind)) (kind_unsupported cfg.kind)
  require (not (is_blank cfg.topic)) topic_required
  require (is_subject cfg.topic) topic_invalid
  validate_connector host cfg
  validate_restart host cfg.restart
  from_pipeline (validate_config host cfg.pipeline)
