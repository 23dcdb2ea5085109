-- ===== src/Connector/RestPoller/Opens.antt =====
-- internal/connector/rest_poller.go: the interval that Open takes over from an accepted block.
use nephtys.Prelude.{
  ◌≡◌, refl, ap, ◌∙◌, subst, String, false, Option, none, some, not, arith, Bool-cases, inl, inr,
  is_some,
}
use nephtys.Prelude.Int.{ℤ, pos, negsuc, ltb_ℤ, ◌≤ℤ◌}
use nephtys.Prelude.Text.{is_blank}
use nephtys.Prelude.Result.{ok, err, >>-eq-ok, require}
use nephtys.Domain.Config.{RestPollerConfig, StreamSourceConfig}
use nephtys.Host.{Host}
use nephtys.Pipeline.Validate.{check_block}
use nephtys.Server.Validate.{
  check_rest_poller, validate_stream_config, validate_connector, connector_block, validate_url,
  check_blocks_apply, present_connector_blocks, check_websocket,
}
use nephtys.Server.Validate.Fields.{
  bad_interval, is_subject, min_poll_interval, validate_poll_interval,
}
use nephtys.Connector.RestPoller.{
  RestPollerSource, or_interval, or_method, or_default, new_rest_poller_source, opened_at,
  open_source,
}

opened_enough :
    (r : RestPollerSource) (d : ℤ)
    → min_poll_interval ≤ℤ d
    → opened_at r (some d) ≡ ok (record r { interval = d })
opened_enough r (pos n) h = ground (arith, h)
opened_enough r (negsuc n) h = absurd (omega (arith, h))

-- An accepted interval is blank, or a duration that is long enough.
stated_interval :
    (host : Host) (raw : String)
    → validate_poll_interval host raw ≡ ok tt
    → is_blank raw ≡ false
    → (d : ℤ) × (host.parse_duration raw ≡ some d) × (min_poll_interval ≤ℤ d)
unfolding validate_poll_interval
stated_interval host raw v b = parsed (host.parse_duration raw) refl (rw b at v)
  where
    parsed :
        (o : Option ℤ)
        → host.parse_duration raw ≡ o
        → elim o [
          | none ↦ err (bad_interval raw)
          | some d ↦ require (not (ltb_ℤ d min_poll_interval)) (bad_interval raw)
        ]
          ≡ ok tt
        → (d : ℤ) × (host.parse_duration raw ≡ some d) × (min_poll_interval ≤ℤ d)
    parsed none p e = cc
    parsed (some d) p e = (d, p, ground (arith, e))

accepted_connector :
    (host : Host) (cfg : StreamSourceConfig)
    → validate_stream_config host cfg ≡ ok tt
    → validate_connector host cfg ≡ ok tt
unfolding validate_stream_config
accepted_connector host cfg v =
    let (a, v₁) = >>-eq-ok (require (not (is_blank cfg.id)) _) _ v in
    let (b, v₂) = >>-eq-ok (require (is_subject cfg.id) _) _ v₁ in
    let (c, v₃) = >>-eq-ok (require (not (is_blank cfg.kind)) _) _ v₂ in
    let (d, v₄) = >>-eq-ok (require (is_some (connector_block cfg.kind)) _) _ v₃ in
    let (e, v₅) = >>-eq-ok (require (not (is_blank cfg.topic)) _) _ v₄ in
    let (f, v₆) = >>-eq-ok (require (is_subject cfg.topic) _) _ v₅ in
    (>>-eq-ok (validate_connector host cfg) _ v₆).0

accepted_block :
    (host : Host) (cfg : StreamSourceConfig)
    → validate_connector host cfg ≡ ok tt
    → check_block (check_rest_poller host) cfg.rest_poller ≡ ok tt
unfolding validate_connector
accepted_block host cfg v =
    let (a, v₁) = >>-eq-ok (validate_url host cfg) _ v in
    let (b, v₂) =
      >>-eq-ok
        (check_blocks_apply (connector_block cfg.kind) cfg.kind (present_connector_blocks cfg)) _
        v₁ in
    let (c, v₃) = >>-eq-ok (check_block check_websocket cfg.websocket) _ v₂ in
    (>>-eq-ok (check_block (check_rest_poller host) cfg.rest_poller) _ v₃).0

-- What the source of an accepted block asks time.ParseDuration for.
abbrev pub Interval : Host → String → Type 0
Interval host raw = (d : ℤ) × (host.parse_duration raw ≡ some d) × (min_poll_interval ≤ℤ d)

default-Interval :
    (host : Host) → host.parse_duration "1m" ≡ some (pos 60000000000) → Interval host "1m"
default-Interval host m = (pos 60000000000, m, omega arith)

block_interval :
    (host : Host) (block : Option RestPollerConfig)
    → host.parse_duration "1m" ≡ some (pos 60000000000)
    → check_block (check_rest_poller host) block ≡ ok tt
    → Interval host (or_method (or_interval (or_default block))).interval
unfolding check_rest_poller
block_interval host none m v = default-Interval host m
block_interval host (some c) m v = elim (Bool-cases (is_blank c.interval)) [
  | inl blank ↦ subst (Interval host) (ground (arith, blank)) (default-Interval host m)
  | inr stated ↦ subst (Interval host) (ground (arith, stated)) (
      stated_interval host c.interval (>>-eq-ok (validate_poll_interval host c.interval) _ v).0
        stated)
]

-- The source of a configuration that validateStreamConfig accepts opens, with the interval that the
-- configuration states or a minute, which is at least the smallest that validation allows, if
-- time.ParseDuration reads "1m" as a minute.
pub accepted_opens :
    (host : Host) (cfg : StreamSourceConfig)
    → host.parse_duration "1m" ≡ some (pos 60000000000)
    → validate_stream_config host cfg ≡ ok tt
    → let r = new_rest_poller_source cfg.id cfg.url cfg.topic cfg.rest_poller in
      (d : ℤ) × (open_source host.parse_duration r ≡ ok (record r { interval = d }))
      × (host.parse_duration r.config.interval ≡ some d)
      × (min_poll_interval ≤ℤ d)
unfolding new_rest_poller_source open_source
accepted_opens host cfg m v =
    let (d, p, l) =
      block_interval host cfg.rest_poller m
        (accepted_block host cfg (accepted_connector host cfg v)) in
    let r = new_rest_poller_source cfg.id cfg.url cfg.topic cfg.rest_poller in
    (d, ap (opened_at r) p ∙ opened_enough r d l, p, l)
