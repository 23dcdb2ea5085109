-- ===== src/Server/Supervisor/Budget.antt =====
-- internal/server/manager.go and restart.go: what the restart policy makes of the turns.
use nephtys.Prelude.{
  ℕ, zero, suc, ◌+◌, ◌<◌, ◌≡◌, refl, String, Bool, true, false, Option, none, some, List, [], ◌∷◌,
  arith, if◌then◌else◌, both-branches, ◌∙◌, ap, ◌&&◌, length, leb,
}
use nephtys.Prelude.Int.{pos}
use nephtys.Prelude.Lists.{All}
use nephtys.Domain.Event.{SourceStatus, error, reconnecting}
use nephtys.Server.Restart.{RestartPolicy, next, unlimited_attempts}
use nephtys.Server.Supervisor.{
  Turn, Supervision, start, set_status, stop, mark_failed, spend, session_over, session,
  open_failed, opened, restart, pass, supervise, stayed_up, record_failure,
}

abbrev is_error : SourceStatus → Bool
is_error error = true
is_error _ = false

is_error-eq : (b : Bool) (st : SourceStatus) → (b && is_error st) ≡ true → st ≡ error
is_error-eq true error e = refl
is_error-eq true _ e = cc
is_error-eq false st e = cc

-- No step of the turn sees the context cancelled.
pub record Uncancelled (t : Turn) : Type 0 where
  pub slept : t.slept ≡ true
  pub reopen : t.open_cancelled ≡ false
  pub run : t.run_cancelled ≡ false

-- The attempt number, the restarts, whether it is over, and whether it is over in `error`.
abbrev outcome : Supervision → ℕ × ℕ × Bool × Bool
outcome s = (s.attempt, s.runtime.restarts, s.over, s.over && is_error s.runtime.status)

abbrev budgeted : RestartPolicy → ℕ → ℕ → ℕ × ℕ × Bool × Bool
budgeted policy attempt restarts =
    let (following, left) = next policy attempt in
    if left then (following, restarts + 1, false, false) else (attempt, restarts, true, true)

module _ (redact : String → String) (policy : RestartPolicy) (t : Turn) (u : Uncancelled t) where
  -- The attempt number that the end of the session goes by.
  abbrev earned : ℕ → ℕ
  earned attempt = if stayed_up policy t.ready_at t.now then 0 else attempt

  outcome-session :
      (s : Supervision)
      → s.over ≡ false
      → outcome (session redact policy t s) ≡ budgeted policy (earned s.attempt) s.runtime.restarts
  unfolding session set_status stop session_over spend mark_failed record_failure
  outcome-session s o = rw u.run (ground (arith, o))

  outcome-open_failed :
      (e : String) (s : Supervision)
      → s.over ≡ false
      → outcome (open_failed redact policy t e s) ≡ budgeted policy s.attempt s.runtime.restarts
  unfolding open_failed set_status stop spend mark_failed record_failure
  outcome-open_failed e s o = rw u.reopen (ground (arith, o))

  -- The pass ends by spending an attempt; a session that was not up for long enough counts from where
  -- the stream was.
  record Spends (s h : Supervision) : Type 0 where
    from : ℕ
    result : outcome h ≡ budgeted policy from s.runtime.restarts
    unearned : stayed_up policy t.ready_at t.now ≡ false → from ≡ s.attempt

  session-Spends : (s : Supervision) → s.over ≡ false → Spends s (session redact policy t s)
  session-Spends s o = record {
    from = earned s.attempt;
    result = outcome-session s o;
    unearned = λ e. rw e refl;
  }

  opened-Spends :
      (o : Option String) (s : Supervision) → s.over ≡ false → Spends s (opened redact policy t o s)
  opened-Spends none s o = record {
    from = earned s.attempt;
    result = outcome-session (record s { opens = s.opens + 1 }) o;
    unearned = λ e. rw e refl;
  }
  opened-Spends (some e) s o = record {
    from = s.attempt;
    result = outcome-open_failed e s o;
    unearned = λ _. refl;
  }

  again : Supervision → Supervision
  unfolding set_status
  again s = set_status reconnecting s

  restart-Spends : (s : Supervision) → s.over ≡ false → Spends s (restart redact policy t s)
  unfolding restart set_status
  restart-Spends s o = rw u.slept (
      let p = opened-Spends t.open_error (set_status reconnecting s) o in
      record { from = p.from; result = p.result; unearned = p.unearned })

  pass-Spends : (s : Supervision) → s.over ≡ false → Spends s (pass redact policy t s)
  unfolding pass
  pass-Spends s o =
      both-branches (Spends s) s.reacquire (λ _. restart-Spends s o)
        (λ _.
          let p = session-Spends (record s { reacquire = true }) o in
          record { from = p.from; result = p.result; unearned = p.unearned })

-- A turn that spends an attempt and earns none back.
pub record Short (policy : RestartPolicy) (t : Turn) : Type 0 where
  pub uncancelled : Uncancelled t
  pub unearned : stayed_up policy t.ready_at t.now ≡ false

module _ (redact : String → String) (policy : RestartPolicy) where
  over_stays : (ts : List Turn) (s : Supervision) → s.over ≡ true → supervise redact policy ts s ≡ s
  unfolding supervise
  over_stays [] s o = refl
  over_stays (t ∷ ts) s o = both-branches (λ x. x ≡ s) s.over (λ _. refl) (λ e. cc)

  live :
      (t : Turn) (ts : List Turn) (s : Supervision)
      → s.over ≡ false
      → supervise redact policy (t ∷ ts) s ≡ supervise redact policy ts (pass redact policy t s)
  unfolding supervise
  live t ts s o =
      both-branches (λ x. x ≡ supervise redact policy ts (pass redact policy t s)) s.over (λ e. cc)
        (λ _. refl)

  module _ (m : ℕ) (bounded : policy.max_attempts ≡ pos m) where
    -- One more short turn: the next attempt, or the end.
    Short-pass :
        (t : Turn) (s : Supervision)
        → Short policy t
        → s.over ≡ false
        → outcome (pass redact policy t s) ≡ (
            if leb (s.attempt + 1) m
            then (s.attempt + 1, s.runtime.restarts + 1, false, false)
            else (s.attempt, s.runtime.restarts, true, true))
    unfolding next
    Short-pass t s h o =
        let p = pass-Spends redact policy t h.uncancelled s o in
        ground (arith, p.result, p.unearned h.unearned, bounded)

    runs_out :
        (k : ℕ) (ts : List Turn) (s : Supervision)
        → All (Short policy) ts
        → s.over ≡ false
        → s.attempt + k ≡ m
        → k < length ts
        → outcome (supervise redact policy ts s) ≡ (m, s.runtime.restarts + k, true, true)
    runs_out k [] s a o eq n = ground arith
    runs_out zero (t ∷ ts) s (h, a) o eq n =
        let x : Supervision = pass redact policy t s in
        let last : outcome x ≡ (m, s.runtime.restarts + 0, true, true) =
          ground (arith, Short-pass t s h o, eq) in
        let ended : x.over ≡ true = cc in
        ap outcome (live t ts s o) ∙ ap outcome (over_stays ts x ended) ∙ last
    runs_out (suc k) (t ∷ ts) s (h, a) o eq n =
        let x : Supervision = pass redact policy t s in
        let following : outcome x ≡ (s.attempt + 1, s.runtime.restarts + 1, false, false) =
          ground (arith, Short-pass t s h o, eq) in
        let lives : x.over ≡ false = cc in
        let counted : x.attempt ≡ s.attempt + 1 = cc in
        let more : x.runtime.restarts ≡ s.runtime.restarts + 1 = cc in
        ap outcome (live t ts s o)
        ∙ runs_out k ts x a lives (omega (arith, counted, eq)) (omega (arith, n))
        ∙ ap (λ r. (m, r, true, true)) (omega (arith, more))

    -- Under a budget of m attempts, more than m turns that are not cancelled and of which none
    -- stays up for the reset time end the loop in the status error, with m restarts counted.
    pub budget_exhausts :
        (ts : List Turn)
        → All (Short policy) ts
        → m < length ts
        → let s = supervise redact policy ts start in
          (s.over ≡ true) × (s.runtime.status ≡ error) × (s.runtime.restarts ≡ m)
    budget_exhausts ts a n =
        let x : Supervision = supervise redact policy ts start in
        let e : outcome x ≡ (m, 0 + m, true, true) = runs_out m ts start a refl (omega arith) n in
        (
          ap (λ o. o.2) e,
          is_error-eq x.over x.runtime.status (ap (λ o. o.3) e),
          ap (λ o. o.1) e ∙ omega arith,
        )

  persists :
      policy.max_attempts ≡ unlimited_attempts
      → (ts : List Turn) (s : Supervision) → All Uncancelled ts
      → s.over ≡ false
      → let h = supervise redact policy ts s in
        (h.over ≡ false) × (h.runtime.restarts ≡ s.runtime.restarts + length ts)
  unfolding supervise next
  persists e [] s a o = (o, omega arith)
  persists e (t ∷ ts) s (u, a) o =
      let x : Supervision = pass redact policy t s in
      let p = pass-Spends redact policy t u s o in
      let following : outcome x ≡ (p.from + 1, s.runtime.restarts + 1, false, false) =
        ground (arith, p.result, e) in
      let lives : x.over ≡ false = ap (λ o. o.2) following in
      let more : x.runtime.restarts ≡ s.runtime.restarts + 1 = ap (λ o. o.1) following in
      let same = live t ts s o in
      let rest = persists e ts x a lives in
      (
        ap (λ h. h.over) same ∙ rest.0,
        ap (λ h. h.runtime.restarts) same ∙ rest.1 ∙ omega (arith, more),
      )

  -- Without a limit, turns that are not cancelled never end the loop, and each counts one restart.
  pub unlimited_persists :
      policy.max_attempts ≡ unlimited_attempts
      → (ts : List Turn) → All Uncancelled ts
      → let s = supervise redact policy ts start in
        (s.over ≡ false) × (s.runtime.restarts ≡ length ts)
  unlimited_persists e ts a = let p = persists e ts start a refl in (p.0, p.1 ∙ omega arith)
