-- ===== src/Server/Health.antt =====
-- internal/server/health.go and handleHealth of handlers.go: the probes.
use nephtys.Prelude.{
  ℕ, ◌≡◌, refl, ◌↔◌, String, Bool, true, false, Option, none, some, if◌then◌else◌, ◌&&◌, arith,
}
use nephtys.Prelude.Text.{is_blank}

abbrev pub check_ok : String
check_ok = "ok"

abbrev pub check_unavailable : String
check_unavailable = "unavailable"

abbrev pub check_unknown : String
check_unknown = "unknown"

abbrev pub reason_broker_unavailable : String
reason_broker_unavailable = "broker connection is not established"

abbrev pub reason_jet_stream_unavailable : String
reason_jet_stream_unavailable = "jetstream is not available on the broker connection"

unfoldable pub check_status : Bool → String
check_status true = check_ok
check_status false = check_unavailable

unfoldable pub unready_reason : Bool → Bool → String
unready_reason broker_ok jet_stream_ok =
    if broker_ok
    then if jet_stream_ok then "" else reason_jet_stream_unavailable
    else reason_broker_unavailable

pub record Readiness : Type 0 where
  pub code : ℕ
  pub status : String
  pub reason : Option String
  pub broker_status : String
  pub broker_state : String
  pub jet_stream_status : String
  pub asked : Bool  -- whether JetStream was asked

unfoldable pub livez : ℕ × String
livez = (200, "alive")

-- `jet_stream` is what JetStreamAvailable answers if it is asked.
unfoldable pub readyz : Bool × String → Bool → Readiness
unfolding check_status unready_reason
readyz (broker_ok, state) jet_stream =
    let jet_stream_ok = broker_ok && jet_stream in
    let reason = unready_reason broker_ok jet_stream_ok in
    let ready = is_blank reason in
    record {
      code = if ready then 200 else 503;
      status = if ready then "ready" else "unready";
      reason = if ready then none else some reason;
      broker_status = check_status broker_ok;
      broker_state = state;
      jet_stream_status = if broker_ok then check_status jet_stream_ok else check_unknown;
      asked = broker_ok;
    }

unfoldable pub bool_to_status : Bool → String
bool_to_status true = "connected"
bool_to_status false = "disconnected"

unfoldable pub health : Bool → ℕ × String × String
unfolding bool_to_status
health connected = (200, (if connected then "ok" else "degraded"), bool_to_status connected)

-- /readyz answers 200 exactly if the broker connection and JetStream are ready, and calls
-- JetStream unavailable exactly if it was asked and said so.
pub readyz_iff_both :
    (broker_ok : Bool) (state : String) (jet_stream : Bool)
    → let r = readyz (broker_ok, state) jet_stream in
      ((r.code ≡ 200) ↔ ((broker_ok ≡ true) × (jet_stream ≡ true)))
      × ((r.jet_stream_status ≡ check_unavailable) ↔ ((r.asked ≡ true) × (jet_stream ≡ false)))
unfolding readyz unready_reason check_status
readyz_iff_both true state true = (((λ _. (refl, refl)), (λ _. refl)), ((λ e. cc), (λ (a, e). cc)))
readyz_iff_both true state false =
    (((λ e. absurd (omega (arith, e))), (λ (a, e). cc)), ((λ _. (refl, refl)), (λ _. refl)))
readyz_iff_both false state true =
    (((λ e. absurd (omega (arith, e))), (λ (a, e). cc)), ((λ e. cc), (λ (a, e). cc)))
readyz_iff_both false state false =
    (((λ e. absurd (omega (arith, e))), (λ (a, e). cc)), ((λ e. cc), (λ (a, e). cc)))
