-- ===== src/Server/Restart.antt =====
-- internal/server/restart.go: the resolved restart policy of a stream, its budget and its ladder.
pub mod Ladder
use nephtys.Prelude.{
  ℕ, zero, suc, ◌+◌, ◌*◌, String, Bool, true, false, Option, none, some, List, [], ◌∷◌, leb, not,
  ◌&&◌, if◌then◌else◌,
}
use nephtys.Prelude.Int.{ℤ, pos, negsuc, ltb_ℤ}
use nephtys.Prelude.Lists.{any}
use nephtys.Prelude.Text.{str_eq, is_blank}
use nephtys.Domain.Config.{Float64, RestartConfig, StreamSourceConfig}
use nephtys.Host.{Host}
use nephtys.Host.Float.{float_one, float_two}
use nephtys.Pipeline.Validate.Resolve.{second}

abbrev pub default_initial_backoff : ℤ
default_initial_backoff = pos second

abbrev pub default_max_backoff : ℤ
default_max_backoff = pos (30 * second)

abbrev pub default_reset_after : ℤ
default_reset_after = pos (60 * second)

abbrev pub default_push_attempts : ℤ
default_push_attempts = pos 5

abbrev pub unlimited_attempts : ℤ
unlimited_attempts = negsuc 0

pub record RestartPolicy : Type 0 where
  pub max_attempts : ℤ
  pub initial_backoff : ℤ
  pub max_backoff : ℤ
  pub factor : Float64
  pub reset_after : ℤ

abbrev pub is_unlimited : ℤ → Bool
is_unlimited (negsuc zero) = true
is_unlimited _ = false

abbrev pub within_budget : ℕ → ℤ → Bool
within_budget n (pos m) = leb n m
within_budget n (negsuc m) = false

-- The attempt number after a session ended, and whether there is budget for it.
unfoldable pub next : RestartPolicy → ℕ → ℕ × Bool
next p attempt =
    if is_unlimited p.max_attempts
    then (attempt + 1, true)
    else (attempt + 1, within_budget (attempt + 1) p.max_attempts)

-- `math.Min` of the grown delay and the cap.
unfoldable pub capped : Option ℤ → ℤ → ℤ
capped none cap_ = cap_
capped (some d) cap_ = if ltb_ℤ cap_ d then cap_ else d

-- How long to wait before an attempt.
unfoldable pub delay : Host → RestartPolicy → ℕ → ℤ
unfolding capped
delay host p zero = p.initial_backoff
delay host p (suc zero) = p.initial_backoff
delay host p (suc (suc n)) = capped (host.scale p.initial_backoff p.factor (suc n)) p.max_backoff

abbrev pub pull_kinds : List String
pull_kinds = "websocket" ∷ "sse" ∷ "rest_poller" ∷ []

-- A duration field that is set and parses.
unfoldable pub stated : Host → String → ℤ → ℤ
stated host raw def = elim (host.parse_duration raw) [
  | none ↦ def
  | some d ↦ if is_blank raw then def else d
]

abbrev pub or_default : Option ℤ → ℤ → ℤ
or_default none def = def
or_default (some n) def = n

unfoldable pub default_policy : String → RestartPolicy
default_policy kind = record {
  max_attempts = if any (str_eq kind) pull_kinds then unlimited_attempts else default_push_attempts;
  initial_backoff = default_initial_backoff;
  max_backoff = default_max_backoff;
  factor = float_two;
  reset_after = default_reset_after;
}

unfoldable pub override : Host → RestartPolicy → Option RestartConfig → RestartPolicy
unfolding stated
override host p none = p
override host p (some rc) = record {
  max_attempts = or_default rc.max_attempts p.max_attempts;
  initial_backoff = stated host rc.initial_backoff p.initial_backoff;
  max_backoff = stated host rc.max_backoff p.max_backoff;
  factor = if ltb_ℤ (pos 0) rc.factor then rc.factor else p.factor;
  reset_after = stated host rc.reset_after p.reset_after;
}

unfoldable pub restart_policy_for : Host → StreamSourceConfig → RestartPolicy
unfolding default_policy override
restart_policy_for host cfg = override host (default_policy cfg.kind) cfg.restart
