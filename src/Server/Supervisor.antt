-- ===== src/Server/Supervisor.antt =====
-- internal/server/manager.go: streamRuntime and supervise, the only retry loop of the process. What
-- the source, the clock and the cancellation do in one pass through the loop is one Turn; the loop
-- goes through a list of turns until it returns.
pub mod Budget
pub mod Balance
pub mod Statuses
pub mod Lifecycle
pub mod Cancel
use nephtys.Prelude.{
  ℕ, zero, suc, ◌+◌, String, Bool, true, false, Option, none, some, List, [], ◌∷◌, leb, ltb, ◌&&◌,
  not, if◌then◌else◌, is_some,
}
use nephtys.Prelude.Int.{ℤ, pos_part, neg_part}
use nephtys.Domain.Event.{SourceStatus, connecting, running, reconnecting, stopped, error}
use nephtys.Server.Restart.{RestartPolicy, next}

pub record StreamFailure : Type 0 where
  pub message : String
  pub at : ℕ

pub record StreamRuntime : Type 0 where
  pub status : SourceStatus
  pub restarts : ℕ
  pub last_error : Option StreamFailure
  pub last_message : ℕ  -- in nanoseconds; 0 before the first

abbrev pub new_stream_runtime : SourceStatus → StreamRuntime
new_stream_runtime status = record {
  status = status;
  restarts = 0;
  last_error = none;
  last_message = 0;
}

abbrev pub session_closed : String
session_closed = "session ended without reporting an error"

abbrev pub reason_of : Option String → String
reason_of none = session_closed
reason_of (some e) = e

-- `redact` is redactForAPI.
unfoldable pub record_failure :
    (String → String) → Option String → ℕ → StreamRuntime → StreamRuntime
record_failure redact e at r = record r {
  last_error = some (record { message = redact (reason_of e); at = at });
}

pub record Turn : Type 0 where
  pub slept : Bool  -- what sleep returned: false if the context was cancelled first
  pub open_error : Option String
  pub open_cancelled : Bool  -- the context is done when a failed Open returns
  pub open_at : ℕ
  pub ready_at : Option ℕ  -- when Run called ready, if it did
  pub run_error : Option String
  pub run_cancelled : Bool  -- the context is done when Run returns
  pub now : ℕ

-- The loop's variables, and what it has done: `opens` counts the calls of Open that returned nil,
-- the one before the supervisor started among them.
pub record Supervision : Type 0 where
  pub attempt : ℕ
  pub reacquire : Bool
  pub runtime : StreamRuntime
  pub opens : ℕ
  pub sessions : ℕ
  pub closes : ℕ
  pub over : Bool
  pub history : List SourceStatus  -- every status that was set, the last one first

abbrev pub start : Supervision
start = record {
  attempt = 0;
  reacquire = false;
  runtime = new_stream_runtime connecting;
  opens = 1;
  sessions = 0;
  closes = 0;
  over = false;
  history = connecting ∷ [];
}

unfoldable pub set_status : SourceStatus → Supervision → Supervision
set_status status s = record s {
  runtime = record s.runtime { status = status };
  history = status ∷ s.history;
}

unfoldable pub stop : Supervision → Supervision
unfolding set_status
stop s = record (set_status stopped s) { over = true }

unfoldable pub mark_failed : Supervision → Supervision
unfolding set_status
mark_failed s = record (set_status error s) { over = true }

-- `policy.next(attempt)`: another attempt, or the terminal state.
unfoldable pub spend : RestartPolicy → Supervision → Supervision
unfolding next mark_failed
spend policy s =
    let (attempt, left) = next policy s.attempt in
    if left
    then record s {
      attempt = attempt;
      runtime = record s.runtime { restarts = s.runtime.restarts + 1 };
    }
    else mark_failed s

-- `ra > 0 && m.now().Sub(ra) >= policy.resetAfter`
unfoldable pub stayed_up : RestartPolicy → Option ℕ → ℕ → Bool
stayed_up policy none now = false
stayed_up policy (some ready) now =
    ltb 0 ready && leb (pos_part policy.reset_after + ready) (now + neg_part policy.reset_after)

abbrev pub mark_ready : Option ℕ → Supervision → Supervision
mark_ready ready s = if is_some ready then set_status running s else s

-- The end of a session that was not cancelled.
unfoldable pub session_over : (String → String) → RestartPolicy → Turn → Supervision → Supervision
unfolding stayed_up record_failure spend
session_over redact policy t s = spend policy (record s {
  attempt = if stayed_up policy t.ready_at t.now then 0 else s.attempt;
  runtime = record_failure redact t.run_error t.now s.runtime;
})

-- From `runtime.setStatus(id, domain.StatusConnecting)` on: one call of Run, then Close.
unfoldable pub session : (String → String) → RestartPolicy → Turn → Supervision → Supervision
unfolding set_status session_over stop
session redact policy t s =
    let ran =
      mark_ready t.ready_at (set_status connecting (record s { sessions = s.sessions + 1 })) in
    let closed : Supervision = record ran { closes = ran.closes + 1 } in
    if t.run_cancelled then stop closed else session_over redact policy t closed

unfoldable pub open_failed :
    (String → String) → RestartPolicy → Turn → String → Supervision → Supervision
unfolding stop spend record_failure
open_failed redact policy t e s =
    if t.open_cancelled
    then stop s
    else spend policy (record s { runtime = record_failure redact (some e) t.open_at s.runtime })

abbrev pub opened :
    (String → String) → RestartPolicy → Turn → Option String → Supervision → Supervision
opened redact policy t none s = session redact policy t (record s { opens = s.opens + 1 })
opened redact policy t (some e) s = open_failed redact policy t e s

unfoldable pub restart : (String → String) → RestartPolicy → Turn → Supervision → Supervision
unfolding set_status stop open_failed session
restart redact policy t s =
    let waiting = set_status reconnecting s in
    if t.slept then opened redact policy t t.open_error waiting else stop waiting

-- One pass through the loop.
unfoldable pub pass : (String → String) → RestartPolicy → Turn → Supervision → Supervision
unfolding restart session
pass redact policy t s =
    if s.reacquire
    then restart redact policy t s
    else session redact policy t (record s { reacquire = true })

unfoldable pub supervise : (String → String) → RestartPolicy → List Turn → Supervision → Supervision
unfolding pass
supervise redact policy [] s = s
supervise redact policy (t ∷ ts) s =
    let rest = supervise redact policy ts (pass redact policy t s) in if s.over then s else rest
