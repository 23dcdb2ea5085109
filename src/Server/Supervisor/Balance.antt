-- ===== src/Server/Supervisor/Balance.antt =====
-- internal/server/manager.go: supervise holds what it opened for exactly one session.
use nephtys.Prelude.{
  ℕ, ◌+◌, ◌≡◌, refl, String, Bool, true, Option, none, some, List, [], ◌∷◌, arith, both-branches,
}
use nephtys.Domain.Event.{SourceStatus, reconnecting}
use nephtys.Server.Restart.{RestartPolicy}
use nephtys.Server.Supervisor.{
  Turn, Supervision, start, set_status, stop, mark_failed, spend, session_over, session,
  open_failed, opened, restart, pass, supervise,
}

-- The counts of Open, Run and Close, and whether a session is to be opened first.
abbrev counts : Supervision → ℕ × ℕ × ℕ × Bool
counts s = (s.opens, s.sessions, s.closes, s.reacquire)

-- Between two passes nothing is held.
record Released (s : Supervision) : Type 0 where
  acquires : s.reacquire ≡ true
  closed : s.opens ≡ s.closes
  ran : s.sessions ≡ s.closes

module _ (redact : String → String) (policy : RestartPolicy) (t : Turn) where
  counts-session :
      (s : Supervision)
      → counts (session redact policy t s) ≡ (s.opens, s.sessions + 1, s.closes + 1, s.reacquire)
  unfolding session set_status stop session_over spend mark_failed
  counts-session s = ground arith

  counts-open_failed :
      (e : String) (s : Supervision) → counts (open_failed redact policy t e s) ≡ counts s
  unfolding open_failed set_status stop spend mark_failed
  counts-open_failed e s = ground arith

  session-Released :
      (s : Supervision)
      → s.reacquire ≡ true
      → s.opens ≡ s.closes + 1
      → s.sessions ≡ s.closes
      → Released (session redact policy t s)
  session-Released s acquires held ran = record {
    acquires = ground (arith, counts-session s);
    closed = ground (arith, counts-session s);
    ran = ground (arith, counts-session s);
  }

  opened-Released :
      (o : Option String) (s : Supervision) → Released s → Released (opened redact policy t o s)
  opened-Released none s r =
      session-Released (record s { opens = s.opens + 1 }) r.acquires (ground (arith, r.closed))
        r.ran
  opened-Released (some e) s r = record {
    acquires = ground (arith, counts-open_failed e s, r.acquires);
    closed = ground (arith, counts-open_failed e s, r.closed);
    ran = ground (arith, counts-open_failed e s, r.ran);
  }

  set_status-Released :
      (status : SourceStatus) (s : Supervision) → Released s → Released (set_status status s)
  unfolding set_status
  set_status-Released status s r = record { acquires = r.acquires; closed = r.closed; ran = r.ran }

  stop-Released : (s : Supervision) → Released s → Released (stop s)
  unfolding stop set_status
  stop-Released s r = record { acquires = r.acquires; closed = r.closed; ran = r.ran }

  restart-Released : (s : Supervision) → Released s → Released (restart redact policy t s)
  unfolding restart
  restart-Released s r =
      let waiting = set_status-Released reconnecting s r in
      both-branches Released t.slept
        (λ _. opened-Released t.open_error (set_status reconnecting s) waiting)
        (λ _. stop-Released (set_status reconnecting s) waiting)

  pass-Released : (s : Supervision) → Released s → Released (pass redact policy t s)
  unfolding pass
  pass-Released s r =
      both-branches Released s.reacquire (λ _. restart-Released s r)
        (λ e. let never : s.reacquire ≡ true = r.acquires in cc)

module _ (redact : String → String) (policy : RestartPolicy) where
  supervise-Released :
      (ts : List Turn) (s : Supervision) → Released s → Released (supervise redact policy ts s)
  unfolding supervise
  supervise-Released [] s r = r
  supervise-Released (t ∷ ts) s r =
      both-branches Released s.over (λ _. r)
        (λ _. supervise-Released ts (pass redact policy t s) (pass-Released redact policy t s r))

  -- After any turns, at least one, the calls of Open that succeeded, those of Run and those of
  -- Close are equally many.
  pub opens_released :
      (t : Turn) (ts : List Turn)
      → let s = supervise redact policy (t ∷ ts) start in
        (s.opens ≡ s.closes) × (s.sessions ≡ s.closes)
  unfolding supervise pass
  opens_released t ts =
      let first =
        session-Released redact policy t (record start { reacquire = true }) refl refl refl in
      let r = supervise-Released ts (pass redact policy t start) first in (r.closed, r.ran)
