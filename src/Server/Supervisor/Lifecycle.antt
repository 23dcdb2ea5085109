-- ===== src/Server/Supervisor/Lifecycle.antt =====
-- internal/server/manager.go: the statuses that a supervised stream goes through.
use nephtys.Prelude.{
  ℕ, ◌+◌, ◌≡◌, refl, String, true, false, Option, none, some, List, [], ◌∷◌, if◌then◌else◌,
  both-branches, is_some,
}
use nephtys.Domain.Event.{connecting, running, reconnecting, stopped, error}
use nephtys.Server.Restart.{RestartPolicy, next}
use nephtys.Server.Supervisor.{
  Turn, Supervision, start, set_status, stop, mark_failed, spend, session_over, session,
  open_failed, opened, restart, pass, supervise, stayed_up, record_failure, mark_ready,
}
use nephtys.Server.Supervisor.Statuses.{
  follows, is_lawful, is_terminal, Traced, follows-live, set_status-Traced,
}

-- What holds of the loop after a pass.
pub record Lawful (s : Supervision) : Type 0 where
  pub acquires : s.reacquire ≡ true
  pub traced : Traced s
  pub live : s.over ≡ false → follows s.runtime.status reconnecting ≡ true
  pub ended : s.over ≡ true → is_terminal s.runtime.status ≡ true
  pub explained : s.runtime.status ≡ error → is_some s.runtime.last_error ≡ true

stop-Lawful :
    (s : Supervision)
    → s.reacquire ≡ true
    → follows s.runtime.status reconnecting ≡ true
    → Traced s
    → Lawful (stop s)
unfolding stop set_status is_terminal
stop-Lawful s a f r =
    let t = set_status-Traced stopped s (follows-live s.runtime.status f).0 r in
    record {
      acquires = a;
      traced = record { earlier = t.earlier; latest = t.latest; lawful = t.lawful };
      live = λ e. cc;
      ended = λ _. refl;
      explained = λ e. cc;
    }

mark_failed-Lawful :
    (s : Supervision)
    → s.reacquire ≡ true
    → follows s.runtime.status reconnecting ≡ true
    → is_some s.runtime.last_error ≡ true
    → Traced s
    → Lawful (mark_failed s)
unfolding mark_failed set_status is_terminal
mark_failed-Lawful s a f x r =
    let t = set_status-Traced error s (follows-live s.runtime.status f).1 r in
    record {
      acquires = a;
      traced = record { earlier = t.earlier; latest = t.latest; lawful = t.lawful };
      live = λ e. cc;
      ended = λ _. refl;
      explained = λ _. x;
    }

module _ (policy : RestartPolicy) where
  spend-Lawful :
      (s : Supervision)
      → s.reacquire ≡ true
      → follows s.runtime.status reconnecting ≡ true
      → is_some s.runtime.last_error ≡ true
      → s.over ≡ false
      → Traced s
      → Lawful (spend policy s)
  unfolding spend
  spend-Lawful s a f x o r =
      both-branches Lawful (next policy s.attempt).1
        (λ _. record {
          acquires = a;
          traced = record { earlier = r.earlier; latest = r.latest; lawful = r.lawful };
          live = λ _. f;
          ended = λ e. cc;
          explained = λ _. x;
        })
        (λ _. mark_failed-Lawful s a f x r)

module _ (redact : String → String) (policy : RestartPolicy) (t : Turn) where
  session_over-Lawful :
      (s : Supervision)
      → s.reacquire ≡ true
      → follows s.runtime.status reconnecting ≡ true
      → s.over ≡ false
      → Traced s
      → Lawful (session_over redact policy t s)
  unfolding session_over record_failure
  session_over-Lawful s a f o r =
      spend-Lawful policy
        (record s {
          attempt = if stayed_up policy t.ready_at t.now then 0 else s.attempt;
          runtime = record_failure redact t.run_error t.now s.runtime;
        })
        a f refl o (record { earlier = r.earlier; latest = r.latest; lawful = r.lawful })

  -- A running or connecting session after Run.
  record Ran (s : Supervision) : Type 0 where
    acquires : s.reacquire ≡ true
    traced : Traced s
    live : follows s.runtime.status reconnecting ≡ true
    over : s.over ≡ false

  Ran-Lawful :
      (s : Supervision)
      → Ran s
      → Lawful (if t.run_cancelled then stop s else session_over redact policy t s)
  Ran-Lawful s r =
      both-branches Lawful t.run_cancelled (λ _. stop-Lawful s r.acquires r.live r.traced)
        (λ _. session_over-Lawful s r.acquires r.live r.over r.traced)

  ready-Ran :
      (ready : Option ℕ) (s : Supervision)
      → s.reacquire ≡ true
      → s.over ≡ false
      → s.runtime.status ≡ connecting
      → Traced s
      → Ran (mark_ready ready s)
  unfolding set_status follows
  ready-Ran ready s a o c r =
      both-branches Ran (is_some ready)
        (λ _.
          let x = set_status-Traced running s (rw c refl) r in
          record {
            acquires = a;
            traced = record { earlier = x.earlier; latest = x.latest; lawful = x.lawful };
            live = refl;
            over = o;
          })
        (λ _. record { acquires = a; traced = r; live = rw c refl; over = o })

  session-Lawful :
      (s : Supervision)
      → s.reacquire ≡ true
      → follows s.runtime.status connecting ≡ true
      → s.over ≡ false
      → Traced s
      → Lawful (session redact policy t s)
  unfolding session set_status
  session-Lawful s a f o r =
      let x = set_status-Traced connecting s f r in
      let begun : Supervision = set_status connecting (record s { sessions = s.sessions + 1 }) in
      let ran =
        ready-Ran t.ready_at begun a o refl
          (record { earlier = x.earlier; latest = x.latest; lawful = x.lawful }) in
      let after : Supervision = mark_ready t.ready_at begun in
      Ran-Lawful (record after { closes = after.closes + 1 })
        (record {
          acquires = ran.acquires;
          traced = record {
            earlier = ran.traced.earlier;
            latest = ran.traced.latest;
            lawful = ran.traced.lawful;
          };
          live = ran.live;
          over = ran.over;
        })

  opened-Lawful :
      (o : Option String) (s : Supervision)
      → s.reacquire ≡ true
      → s.runtime.status ≡ reconnecting
      → s.over ≡ false
      → Traced s
      → Lawful (opened redact policy t o s)
  unfolding follows open_failed record_failure
  opened-Lawful none s a c o r =
      session-Lawful (record s { opens = s.opens + 1 }) a (rw c refl) o
        (record { earlier = r.earlier; latest = r.latest; lawful = r.lawful })
  opened-Lawful (some e) s a c o r =
      both-branches Lawful t.open_cancelled (λ _. stop-Lawful s a (rw c refl) r)
        (λ _.
          spend-Lawful policy
            (record s { runtime = record_failure redact (some e) t.open_at s.runtime }) a
            (rw c refl) refl o
            (record { earlier = r.earlier; latest = r.latest; lawful = r.lawful }))

  pass-Lawful : (s : Supervision) → s.over ≡ false → Lawful s → Lawful (pass redact policy t s)
  unfolding pass restart set_status follows
  pass-Lawful s o r =
      let w = set_status-Traced reconnecting s (r.live o) r.traced in
      let waiting : Supervision = set_status reconnecting s in
      let traced : Traced waiting = record {
        earlier = w.earlier;
        latest = w.latest;
        lawful = w.lawful;
      } in
      both-branches Lawful s.reacquire
        (λ _.
          both-branches Lawful t.slept
            (λ _. opened-Lawful t.open_error waiting r.acquires refl o traced)
            (λ _. stop-Lawful waiting r.acquires refl traced))
        (λ e. let never : s.reacquire ≡ true = r.acquires in cc)

module _ (redact : String → String) (policy : RestartPolicy) where
  supervise-Lawful :
      (ts : List Turn) (s : Supervision) → Lawful s → Lawful (supervise redact policy ts s)
  unfolding supervise
  supervise-Lawful [] s r = r
  supervise-Lawful (t ∷ ts) s r =
      both-branches Lawful s.over (λ _. r)
        (λ o. supervise-Lawful ts (pass redact policy t s) (pass-Lawful redact policy t s o r))

  -- After any turns, at least one: each status that was set comes after the one before it by a step
  -- of the state diagram of docs/LIFECYCLE.md, or by one of the five that the diagram does not
  -- have: from connecting to itself, to reconnecting or to error, from running to error, from
  -- reconnecting to itself. So nothing comes after stopped or error. The last status is in force, the loop is over only in a terminal status and running
  -- on only in one that may still change, and a stream in the status error has a recorded failure.
  pub statuses-Lawful :
      (t : Turn) (ts : List Turn) → Lawful (supervise redact policy (t ∷ ts) start)
  unfolding supervise pass is_lawful follows
  statuses-Lawful t ts = supervise-Lawful ts (pass redact policy t start) (
      session-Lawful redact policy t (record start { reacquire = true }) refl refl refl
        (record { earlier = []; latest = refl; lawful = refl }))
