-- ===== src/Server/Handlers/Status.antt =====
-- internal/server/handlers.go: what the status of POST /v1/streams says of the manager.
use nephtys.Prelude.{
  ℕ, ◌≡◌, ◌≢◌, refl, sym, String, Bool, true, false, Option, none, some, ◌⊎◌, inl, inr, is_some,
  both-branches, List, arith, subst, not,
}
use nephtys.Prelude.Text.{is_blank}
use nephtys.Prelude.Map.{Map, get}
use nephtys.Prelude.Result.{Result, ok, err, Check, >>-eq-ok, require}
use nephtys.Domain.Event.{Bytes}
use nephtys.Domain.Config.{StreamSourceConfig}
use nephtys.Host.{Host}
use nephtys.Pipeline.Validate.{validate_config}
use nephtys.Pipeline.Validate.Resolve.{ConfigError}
use nephtys.Pipeline.Chain.{Middleware}
use nephtys.Pipeline.Builder.{Built, build_from_config}
use nephtys.Pipeline.Builder.Valid.{valid_config_builds}
use nephtys.Server.Validate.{
  validate_stream_config, validate_connector, connector_block, from_pipeline,
}
use nephtys.Server.Validate.Fields.{StreamError, is_subject, validate_restart}
use nephtys.Server.Manager.{
  Admission, Manager, Reply, Live, register, admit, claimed, with_generation, acquire, persisted,
  write_error, holder_of,
}
use nephtys.Server.Manager.Ports.{connector_port}
use nephtys.Server.Manager.Restore.{source_from_config}
use nephtys.Server.Manager.Admit.{Untouched, Holds}
use nephtys.Server.Handlers.{
  Response, handle_create_stream, validated, sourced, registered, register_status,
}

from_pipeline-ok : (v : Check ConfigError) → from_pipeline v ≡ ok tt → v ≡ ok tt
from_pipeline-ok (ok tt) e = refl
from_pipeline-ok (err x) e = cc

kind-starts :
    (cfg : StreamSourceConfig)
    → is_some (connector_block cfg.kind) ≡ true
    → source_from_config cfg ≡ none
unfolding connector_block source_from_config
kind-starts cfg e = ground (arith, e)

require-true : (b : Bool) (x : StreamError) → require b x ≡ ok tt → b ≡ true
require-true true x e = refl
require-true false x e = cc

module _ (host : Host) where
  -- A configuration that validateStreamConfig accepts has a kind that sourceFromConfig knows and a
  -- pipeline that ValidateConfig accepts.
  pub accepted_config_starts :
      (cfg : StreamSourceConfig)
      → validate_stream_config host cfg ≡ ok tt
      → (source_from_config cfg ≡ none) × (validate_config host cfg.pipeline ≡ ok tt)
  unfolding validate_stream_config
  accepted_config_starts cfg v =
      let (a, v₁) = >>-eq-ok (require (not (is_blank cfg.id)) _) _ v in
      let (b, v₂) = >>-eq-ok (require (is_subject cfg.id) _) _ v₁ in
      let (c, v₃) = >>-eq-ok (require (not (is_blank cfg.kind)) _) _ v₂ in
      let (d, v₄) = >>-eq-ok (require (is_some (connector_block cfg.kind)) _) _ v₃ in
      let (e, v₅) = >>-eq-ok (require (not (is_blank cfg.topic)) _) _ v₄ in
      let (f, v₆) = >>-eq-ok (require (is_subject cfg.topic) _) _ v₅ in
      let (g, v₇) = >>-eq-ok (validate_connector host cfg) _ v₆ in
      let (h, v₈) = >>-eq-ok (validate_restart host cfg.restart) _ v₇ in
      (
        kind-starts cfg (require-true _ _ d),
        from_pipeline-ok (validate_config host cfg.pipeline) v₈,
      )

-- Either 201, and the stream is held and durable, or nothing is left behind.
abbrev Answers : Manager → Result String StreamSourceConfig → Manager × Response → Type 0
Answers m request r =
    ((r.1.code ≡ 201) × (cfg : StreamSourceConfig) × (request ≡ ok cfg) × Holds true m cfg r.0)
    ⊎ ((r.1.code ≢ 201) × Untouched m r.0)

-- What an accepted configuration can get.
abbrev Settled : ℕ → Type 0
Settled code = (code ≡ 201) ⊎ (code ≡ 409)

write_error-none :
    (store : Option (Map StreamSourceConfig)) (e : Option String)
    → e ≡ none
    → write_error true store e ≡ none
write_error-none none e p = refl
write_error-none (some kv) e p = p

module _ (host : Host) (hash : Bytes → ℕ) (env : Admission) (m : Manager)
    (cfg : StreamSourceConfig) where
  -- The response to a registration.
  abbrev answered : Reply → ℕ
  answered r = (registered cfg.id r).1.code

  persisted-Settled :
      (g : Live) (o : Option String) (h : Manager)
      → o ≡ none
      → Settled (answered (persisted true cfg g o h))
  unfolding registered persisted
  persisted-Settled g none h e = inl refl
  persisted-Settled g (some x) h e = cc

  acquire-Settled :
      env.put_error ≡ none
      → (g : Live) (o : Option String) (h : Manager)
      → Settled (answered (acquire true env cfg g o h))
  unfolding registered register_status acquire
  acquire-Settled p g none h =
      persisted-Settled g (write_error true h.store env.put_error) _
        (write_error-none h.store env.put_error p)
  acquire-Settled p g (some e) h = inr refl

  built-Settled :
      env.put_error ≡ none
      → (b : Built) (chain : List Middleware) → b.1 ≡ ok chain
      → Settled (answered (with_generation true env cfg b m))
  unfolding with_generation
  built-Settled p (series, err e) chain x = cc
  built-Settled p (series, ok ms) chain x = acquire-Settled p _ env.open_error _

  claimed-Settled :
      env.put_error ≡ none
      → validate_config host cfg.pipeline ≡ ok tt
      → (o : Option String) → Settled (answered (claimed host hash true env cfg o m))
  unfolding registered register_status claimed
  claimed-Settled p v (some holder) = inr refl
  claimed-Settled p v none =
      let (ms, e) = valid_config_builds host hash cfg.id cfg.pipeline m.series v in
      built-Settled p (build_from_config host hash cfg.id cfg.pipeline m.series) ms e

  register-Settled :
      env.put_error ≡ none
      → validate_config host cfg.pipeline ≡ ok tt
      → Settled (answered (register host hash env cfg m))
  unfolding registered register_status register admit
  register-Settled p v =
      both-branches (λ r. Settled (answered r)) (is_some (get m.runtimes cfg.id)) (λ _. inr refl)
        (λ _. claimed-Settled p v (holder_of (connector_port cfg) m.port_claims))

  -- If the store takes the write, POST /v1/streams answers a configuration that
  -- validateStreamConfig accepts with 201 or 409.
  pub accepted_starts_or_conflicts :
      env.put_error ≡ none
      → validate_stream_config host cfg ≡ ok tt
      → let r = handle_create_stream host hash env (ok cfg) m in (r.1.code ≡ 201) ⊎ (r.1.code ≡ 409)
  unfolding handle_create_stream validated sourced
  accepted_starts_or_conflicts p v =
      let (starts, valid) = accepted_config_starts host cfg v in
      subst (λ x. Settled (validated host hash env cfg x m).1.code) (sym v)
        (subst (λ x. Settled (sourced host hash env cfg x m).1.code) (sym starts)
          (register-Settled p valid))
