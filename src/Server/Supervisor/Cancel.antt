-- ===== src/Server/Supervisor/Cancel.antt =====
-- internal/server/manager.go: a turn that sees the context cancelled is no restart.
use nephtys.Prelude.{ℕ, ◌+◌, ◌≡◌, refl, String, true, Option, none, some, both-branches, is_some}
use nephtys.Domain.Event.{connecting, reconnecting, stopped}
use nephtys.Server.Restart.{RestartPolicy}
use nephtys.Server.Supervisor.{
  Turn, Supervision, set_status, stop, session, open_failed, opened, restart, pass, mark_ready,
}

-- What cancellation leaves as it was.
pub record Stopped (s h : Supervision) : Type 0 where
  pub over : h.over ≡ true
  pub status : h.runtime.status ≡ stopped
  pub attempt : h.attempt ≡ s.attempt
  pub restarts : h.runtime.restarts ≡ s.runtime.restarts
  pub last_error : h.runtime.last_error ≡ s.runtime.last_error

-- As `Stopped`, before the stop.
record Unspent (s h : Supervision) : Type 0 where
  attempt : h.attempt ≡ s.attempt
  restarts : h.runtime.restarts ≡ s.runtime.restarts
  last_error : h.runtime.last_error ≡ s.runtime.last_error

stop-Stopped : (s h : Supervision) → Unspent s h → Stopped s (stop h)
unfolding stop set_status
stop-Stopped s h u = record {
  over = refl;
  status = refl;
  attempt = u.attempt;
  restarts = u.restarts;
  last_error = u.last_error;
}

mark_ready-Unspent :
    (ready : Option ℕ) (s h : Supervision) → Unspent s h → Unspent s (mark_ready ready h)
unfolding set_status
mark_ready-Unspent ready s h u =
    both-branches (Unspent s) (is_some ready)
      (λ _. record { attempt = u.attempt; restarts = u.restarts; last_error = u.last_error })
      (λ _. u)

module _ (redact : String → String) (policy : RestartPolicy) (t : Turn) where
  session-Stopped :
      (s h : Supervision)
      → t.run_cancelled ≡ true
      → Unspent s h
      → Stopped s (session redact policy t h)
  unfolding session set_status
  session-Stopped s h r u =
      let begun : Supervision = set_status connecting (record h { sessions = h.sessions + 1 }) in
      let ran =
        mark_ready-Unspent t.ready_at s begun
          (record { attempt = u.attempt; restarts = u.restarts; last_error = u.last_error }) in
      let after : Supervision = mark_ready t.ready_at begun in
      both-branches (Stopped s) t.run_cancelled
        (λ _.
          stop-Stopped s (record after { closes = after.closes + 1 })
            (record {
              attempt = ran.attempt;
              restarts = ran.restarts;
              last_error = ran.last_error;
            }))
        (λ e. cc)

  opened-Stopped :
      (o : Option String) (s h : Supervision)
      → t.open_cancelled ≡ true
      → t.run_cancelled ≡ true
      → Unspent s h
      → Stopped s (opened redact policy t o h)
  unfolding open_failed
  opened-Stopped none s h c r u =
      session-Stopped s (record h { opens = h.opens + 1 }) r
        (record { attempt = u.attempt; restarts = u.restarts; last_error = u.last_error })
  opened-Stopped (some e) s h c r u =
      both-branches (Stopped s) t.open_cancelled (λ _. stop-Stopped s h u) (λ e. cc)

  -- A pass that sees the context cancelled, at Open or at Run, ends the loop in the status
  -- stopped, and counts no attempt, no restart and no failure.
  pub cancel_stops :
      (s : Supervision)
      → t.open_cancelled ≡ true
      → t.run_cancelled ≡ true
      → Stopped s (pass redact policy t s)
  unfolding pass restart set_status
  cancel_stops s c r =
      let same : Unspent s (set_status reconnecting s) = record {
        attempt = refl;
        restarts = refl;
        last_error = refl;
      } in
      both-branches (Stopped s) s.reacquire
        (λ _.
          both-branches (Stopped s) t.slept
            (λ _. opened-Stopped t.open_error s (set_status reconnecting s) c r same)
            (λ _. stop-Stopped s (set_status reconnecting s) same))
        (λ _.
          session-Stopped s (record s { reacquire = true }) r
            (record { attempt = refl; restarts = refl; last_error = refl }))
