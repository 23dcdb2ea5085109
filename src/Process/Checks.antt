-- ===== src/Process/Checks.antt =====
-- cmd/nephtys/main.go: the two checks of the command, and what the running service answers.
use nephtys.Prelude.{
  ℕ, ◌≤◌, ◌<◌, ◌≡◌, ◌≢◌, ◌↔◌, ◌⊎◌, inl, inr, Bool-cases, refl, ap, sym, ◌∙◌, subst, String, Bool,
  true, none, some, arith, length, ltb,
}
use nephtys.Prelude.Result.{Result, ok, err, Check, ◌>>=◌}
use nephtys.Domain.Event.{Bytes}
use nephtys.Domain.Config.{StreamSourceConfig}
use nephtys.Host.{Host}
use nephtys.Server.Decode.{Decoder, decode_strict, decode_body, max_body}
use nephtys.Server.Validate.{validate_stream_config}
use nephtys.Server.Validate.Fields.{StreamError}
use nephtys.Server.Manager.{
  Admission, Manager, ManagerError, stream_exists, port_conflict, source_open, Reply, register,
}
use nephtys.Server.Handlers.{handle_create_stream, validated, sourced, registered, register_status}
use nephtys.Server.Handlers.Status.{accepted_config_starts}
use nephtys.Server.Health.{readyz, readyz_iff_both}
use nephtys.Process.{
  Source, stdin, file, read_config, parsed, accepted, run_config_check, run_ready_check,
  CommandError,
}

abbrev Passes : Result CommandError StreamSourceConfig → Type 0
Passes r = (cfg : StreamSourceConfig) × (r ≡ ok cfg)

register_status-ne : (e : ManagerError) → register_status e ≢ 400
unfolding register_status
register_status-ne (stream_exists id) h = absurd (omega (arith, h))
register_status-ne (port_conflict port holder) h = absurd (omega (arith, h))
register_status-ne (source_open x) h = absurd (omega (arith, h))
register_status-ne e h = absurd (omega (arith, h))

-- Only a file is read without a limit.
from_file :
    (source : Source) (document : Bytes)
    → read_config source ≡ ok document
    → max_body < length document
    → source ≡ file (some document)
from_file (stdin none) document r g = cc
from_file (stdin (some d)) document r g = ground (arith, r, g)
from_file (file none) document r g = cc
from_file (file (some d)) document r g = cc

module _ (host : Host) (hash : Bytes → ℕ) (env : Admission) (m : Manager) where
  registered-ne : (id : String) (r : Reply) → (registered id r).1.code ≢ 400
  unfolding registered
  registered-ne id (h, none) e = absurd (omega (arith, e))
  registered-ne id (h, some x) e = register_status-ne x e

  accepted_iff :
      (cfg : StreamSourceConfig) (v : Check StreamError)
      → validate_stream_config host cfg ≡ v
      → Passes (accepted cfg v) ↔ ((validated host hash env cfg v m).1.code ≢ 400)
  unfolding validated sourced
  accepted_iff cfg (err x) e = ((λ (c, p). cc), (λ n. absurd (n refl)))
  accepted_iff cfg (ok tt) e =
      let starts = (accepted_config_starts host cfg e).0 in
      (
        (λ p.
            subst (λ o. (sourced host hash env cfg o m).1.code ≢ 400) (sym starts)
              (registered-ne cfg.id (register host hash env cfg m))),
        (λ n. (cfg, refl)),
      )

  decoded_iff :
      (d : Result String StreamSourceConfig)
      → Passes (parsed d >>= λ cfg. accepted cfg (validate_stream_config host cfg))
        ↔ ((handle_create_stream host hash env d m).1.code ≢ 400)
  unfolding handle_create_stream
  decoded_iff (err e) = ((λ (c, p). cc), (λ n. absurd (n refl)))
  decoded_iff (ok cfg) = accepted_iff cfg (validate_stream_config host cfg) refl

  checked_as_posted :
      (decoder : Decoder StreamSourceConfig) (source : Source) (document : Bytes)
      → read_config source ≡ ok document
      → length document ≤ max_body
      → Passes (run_config_check host decoder source)
        ↔ ((handle_create_stream host hash env (decode_body decoder document) m).1.code ≢ 400)
  unfolding run_config_check
  checked_as_posted decoder source document r l =
      let same : decode_strict decoder document ≡ decode_body decoder document =
        unfold decode_body in ground (arith, l) in
      subst
        (λ x.
          Passes (
            x >>= λ doc. parsed (decode_strict decoder doc) >>= λ cfg.
            accepted cfg (validate_stream_config host cfg))
          ↔ ((handle_create_stream host hash env (decode_body decoder document) m).1.code ≢ 400))
        (sym r)
        (subst
          (λ d.
            Passes (
              parsed (decode_strict decoder document) >>= λ cfg.
              accepted cfg (validate_stream_config host cfg))
            ↔ ((handle_create_stream host hash env d m).1.code ≢ 400))
          same (decoded_iff (decode_strict decoder document)))

  too_long_refused :
      (decoder : Decoder StreamSourceConfig) (document : Bytes)
      → max_body < length document
      → (handle_create_stream host hash env (decode_body decoder document) m).1.code ≡ 400
  too_long_refused decoder document g =
      let too_long : decode_body decoder document ≡ err "http: request body too large" =
        unfold decode_body in ground (arith, g) in
      ap (λ d. (handle_create_stream host hash env d m).1.code) too_long
      ∙ (unfold handle_create_stream in refl)

  -- A document that --config-check reads, from stdin or a file. If it has up to a mebibyte, it passes
  -- the check exactly if POST /v1/streams does not answer it with 400, whatever the manager holds and
  -- the source and the store say; a longer one, which comes from a file, POST answers with 400.
  pub check_agrees :
      (decoder : Decoder StreamSourceConfig) (source : Source) (document : Bytes)
      → read_config source ≡ ok document
      → let code = (handle_create_stream host hash env (decode_body decoder document) m).1.code in
        ((length document ≤ max_body)
          × (((cfg : StreamSourceConfig) × (run_config_check host decoder source ≡ ok cfg))
              ↔ (code ≢ 400)))
        ⊎ ((max_body < length document) × (source ≡ file (some document)) × (code ≡ 400))
  check_agrees decoder source document r = elim (Bool-cases (ltb max_body (length document))) [
    | inl long ↦
        let g : max_body < length document = ground (arith, long) in
        inr (g, from_file source document r g, too_long_refused decoder document g)
    | inr fits ↦
        let l : length document ≤ max_body = ground (arith, fits) in
        inl (l, checked_as_posted decoder source document r l)
  ]

-- The check of the container passes exactly if the broker connection and JetStream are ready.
pub ready_check_iff_ready :
    (broker_ok : Bool) (state : String) (jet_stream : Bool)
    → (run_ready_check (ok (readyz (broker_ok, state) jet_stream).code) ≡ ok tt)
      ↔ ((broker_ok ≡ true) × (jet_stream ≡ true))
unfolding run_ready_check
ready_check_iff_ready broker_ok state jet_stream =
    let (ready, asked) = readyz_iff_both broker_ok state jet_stream in
    let code = (readyz (broker_ok, state) jet_stream).code in
    ((λ e. ready.0 (ground (arith, e))), (λ b. ground (arith, ready.1 b)))
