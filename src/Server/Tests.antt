-- ===== src/Server/Tests.antt =====
-- The theorems on restart policies, the supervisor, the probes and POST /v1/streams at concrete
-- inputs.
use nephtys.Prelude.{false, ◌≡◌, refl, ◌⊎◌, String, true, false, none, some, [], ◌∷◌, arith, subst}
use nephtys.Prelude.Int.{ℤ, pos, ◌≤ℤ◌}
use nephtys.Prelude.Map.{empty}
use nephtys.Prelude.Result.{ok, Result}
use nephtys.Domain.Event.{error, connecting, reconnecting}
use nephtys.Pipeline.Validate.{validate_config}
use nephtys.Pipeline.Validate.Resolve.{resolve_duration, resolve_count}
use nephtys.Server.Restart.{
  RestartPolicy, restart_policy_for, delay, unlimited_attempts, override, stated,
}
use nephtys.Server.Restart.Ladder.{delay_bounds}
use nephtys.Server.Validate.{validate_stream_config}
use nephtys.Server.Validate.Fields.{
  validate_restart, validate_restart_duration, is_subject, is_subject_char,
}
use nephtys.Server.Supervisor.{Turn, start, supervise, stayed_up}
use nephtys.Server.Supervisor.Balance.{opens_released}
use nephtys.Server.Supervisor.Budget.{Short, budget_exhausts}
use nephtys.Server.Supervisor.Lifecycle.{Lawful, statuses-Lawful}
use nephtys.Server.Manager.{Manager, Admission, new_stream_manager}
use nephtys.Server.Handlers.{handle_create_stream}
use nephtys.Server.Handlers.Status.{accepted_starts_or_conflicts}
use nephtys.Host.Number.{is_digit}
use nephtys.Fixtures.{host, hash, feed}

abbrev as_is : String → String
as_is s = s

abbrev policy : RestartPolicy
policy = record {
  max_attempts = pos 2;
  initial_backoff = pos 5;
  max_backoff = pos 20;
  factor = pos 0;
  reset_after = pos 60;
}

-- A session that is ready at 10 and fails at 12.
abbrev drops : Turn
drops = record {
  slept = true;
  open_error = none;
  open_cancelled = false;
  open_at = 9;
  ready_at = some 10;
  run_error = some "reset by peer";
  run_cancelled = false;
  now = 12;
}

abbrev cancelled : Turn
cancelled = record drops { open_cancelled = true; run_cancelled = true }

opens_released_example :
    let s = supervise as_is policy (drops ∷ cancelled ∷ []) start in
    (s.opens ≡ s.closes) × (s.sessions ≡ s.closes)
opens_released_example = opens_released as_is policy drops (cancelled ∷ [])

drops-Short : Short policy drops
unfolding stayed_up
drops-Short = record {
  uncancelled = record { slept = refl; reopen = refl; run = refl };
  unearned = refl;
}

abbrev endless : RestartPolicy
endless = record policy { max_attempts = unlimited_attempts }

statuses-Lawful_example : Lawful (supervise as_is policy (drops ∷ cancelled ∷ []) start)
statuses-Lawful_example = statuses-Lawful as_is policy drops (cancelled ∷ [])

-- A session that ends before it is ready, an Open that fails, and another such session: steps that
-- the diagram of docs/LIFECYCLE.md does not have.
abbrev unready : Turn
unready = record drops { ready_at = none }

abbrev unopened : Turn
unopened = record drops { open_error = some "no such host" }

statuses_beyond_diagram :
    (supervise as_is policy (unready ∷ unopened ∷ unready ∷ []) start).history
    ≡ error ∷ connecting ∷ reconnecting ∷ reconnecting ∷ connecting ∷ connecting ∷ []
unfolding supervise
statuses_beyond_diagram = refl

restart_valid : validate_restart host feed.restart ≡ ok tt
unfolding validate_restart validate_restart_duration
restart_valid = refl

-- The host of the tests scales nothing.
scaled : (d r : ℤ) → some d ≡ some r → d ≤ℤ r
scaled d r e = let same : d ≡ r = cc in subst (λ x. d ≤ℤ x) same (omega arith)

delay_bounds_example :
    let p = restart_policy_for host feed in
    (p.initial_backoff ≤ℤ delay host p 3) × (delay host p 3 ≤ℤ p.max_backoff)
unfolding restart_policy_for override stated
delay_bounds_example =
    delay_bounds host feed 3 (λ d f r n a b c e. scaled d r e) restart_valid (omega arith)

feed_valid : validate_stream_config host feed ≡ ok tt
unfolding validate_stream_config validate_restart validate_restart_duration is_subject
    is_subject_char validate_config resolve_duration resolve_count is_digit
feed_valid = refl

abbrev opens : Admission
opens = record { open_error = none; put_error = none }

abbrev fresh : Manager
fresh = new_stream_manager (some empty)

accepted_starts_or_conflicts_example :
    let r = handle_create_stream host hash opens (ok feed) fresh in
    (r.1.code ≡ 201) ⊎ (r.1.code ≡ 409)
accepted_starts_or_conflicts_example =
    accepted_starts_or_conflicts host hash opens fresh feed refl feed_valid

budget_exhausts_example :
    let s = supervise as_is policy (drops ∷ drops ∷ drops ∷ []) start in
    (s.over ≡ true) × (s.runtime.status ≡ error) × (s.runtime.restarts ≡ 2)
budget_exhausts_example =
    budget_exhausts as_is policy 2 refl (drops ∷ drops ∷ drops ∷ [])
      (drops-Short, (drops-Short, (drops-Short, tt))) (omega arith)
