-- ===== src/Connector/Webhook/Released.antt =====
-- internal/connector/webhook.go: the listener of a source over its sessions.
use nephtys.Prelude.{
  ℕ, ◌≡◌, ◌⊎◌, inl, inr, refl, String, Bool, true, false, Option, none, some, List, [], ◌∷◌, ◌++◌,
  ◌==◌, if◌then◌else◌, arith, both-branches, ◌∙◌, ap, Bool-cases,
}
use nephtys.Domain.Config.{WebhookConfig}
use nephtys.Connector.Webhook.{
  Call, listen, serve, shut_down, close_server, close_listener, WebhookSource, new_webhook_source,
  note, open_source, Ending, failed, server_closed, cancelled, end_session, run_on, run_source,
  shutdown, release, close_source,
}

-- One Open of the supervisor, a session if it succeeds, and the Close that follows.
pub record Round : Type 0 where
  pub listen_error : Option String
  pub ending : Option Ending  -- `none` for a source whose Run is never called
  pub in_time : Bool

abbrev pub session : Option Ending → WebhookSource → WebhookSource
session none w = w
session (some ending) w = (run_source ending w).0.0

abbrev pub concluded : Round → WebhookSource × Option String → WebhookSource
concluded r (w, some e) = w
concluded r (w, none) = close_source r.in_time (session r.ending w)

unfoldable pub rounds : List Round → WebhookSource → WebhookSource
rounds [] w = w
rounds (r ∷ rs) w = rounds rs (concluded r (open_source r.listen_error w))

-- Whether a listener is bound after a call, if it was (or was not) before. Serve does not bind it.
unfoldable pub after : ℕ → Bool → Call → Bool
after i b (listen n) = if n == i then true else b
after i b (serve n) = b
after i b (shut_down n) = if n == i then false else b
after i b (close_server n) = if n == i then false else b
after i b (close_listener n) = if n == i then false else b

unfoldable pub bound : ℕ → Bool → List Call → Bool
bound i b [] = b
bound i b (c ∷ cs) = bound i (after i b c) cs

bound-append :
    (i : ℕ) (b : Bool) (cs : List Call) (c : Call)
    → bound i b (cs ++ c ∷ []) ≡ after i (bound i b cs) c
unfolding bound
bound-append i b [] c = refl
bound-append i b (d ∷ cs) c = bound-append i (after i b d) cs c

same_serial : (n : ℕ) → (n == n) ≡ true
same_serial n = ground arith

module _ (i : ℕ) where
  -- The listener is not bound, or it is the one that the source has.
  Held : WebhookSource → Type 0
  Held w = (bound i false w.calls ≡ false) ⊎ (w.listener ≡ some i)

  note-Held : (c : Call) (w : WebhookSource) → after i false c ≡ false → Held w → Held (note c w)
  unfolding Held
  note-Held c w f (inl free) = inl (bound-append i false w.calls c ∙ ap (λ b. after i b c) free ∙ f)
  note-Held c w f (inr own) = inr own

  kept : (n : ℕ) → (if n == i then false else false) ≡ false
  kept n = both-branches (λ b. b ≡ false) (n == i) (λ _. refl) (λ _. refl)

  shutdown-Held :
      (in_time : Bool) (o : Option ℕ) (w : WebhookSource) → Held w → Held (shutdown in_time o w)
  unfolding shutdown after
  shutdown-Held in_time none w h = h
  shutdown-Held in_time (some n) w h =
      let shut = note-Held (shut_down n) w (kept n) h in
      both-branches Held in_time (λ _. shut)
        (λ _. note-Held (close_server n) (note (shut_down n) w) (kept n) shut)

  end-Held : (e : Ending) (n : ℕ) (w : WebhookSource) → Held w → Held (end_session e n w).0
  end-Held (failed e) n w h = h
  end-Held server_closed n w h = h
  end-Held (cancelled in_time) n w h = shutdown-Held in_time (some n) w h

  run_on-Held : (o : Option ℕ) (e : Ending) (w : WebhookSource) → Held w → Held (run_on o e w).0.0
  unfolding Held after
  run_on-Held none e w h = h
  run_on-Held (some n) e w h =
      end-Held e n (record (note (serve n) w) { server = some n }) (note-Held (serve n) w refl h)

  session-Held : (o : Option Ending) (w : WebhookSource) → Held w → Held (session o w)
  unfolding run_source
  session-Held none w h = h
  session-Held (some e) w h = run_on-Held w.listener e w h

  -- The source has no listener, and this one is not bound.
  AtRest : WebhookSource → Type 0
  AtRest w = (w.listener ≡ none) × (bound i false w.calls ≡ false)

  release-AtRest :
      (o : Option ℕ) (w : WebhookSource) → w.listener ≡ o → Held w → AtRest (release o w)
  unfolding Held AtRest after
  release-AtRest none w e (inl free) = (e, free)
  release-AtRest none w e (inr own) = cc
  release-AtRest (some n) w e (inl free) = (
    refl,
    bound-append i false w.calls (close_listener n)
        ∙ ap (λ b. after i b (close_listener n)) free
        ∙ kept n,
  )
  release-AtRest (some n) w e (inr own) =
      let same : n ≡ i = cc in
      (refl, bound-append i false w.calls (close_listener n) ∙ rw same (rw (same_serial i) refl))

  close-AtRest : (in_time : Bool) (w : WebhookSource) → Held w → AtRest (close_source in_time w)
  unfolding close_source
  close-AtRest in_time w h =
      let w' = shutdown in_time w.server w in
      release-AtRest w'.listener w' refl (shutdown-Held in_time w.server w h)

  serial_of : (n : ℕ) → (n == i) ≡ true → n ≡ i
  serial_of n e = ground (arith, e)

  open-Held : (w : WebhookSource) → AtRest w → Held (open_source none w).0
  unfolding open_source Held AtRest after
  open-Held w (empty, free) = elim (Bool-cases (w.opened == i)) [
    | inl same ↦ inr (ap some (serial_of w.opened same))
    | inr other ↦ inl (bound-append i false w.calls (listen w.opened) ∙ rw other free)
  ]

  round-AtRest :
      (r : Round) (o : Option String) (w : WebhookSource)
      → AtRest w
      → AtRest (concluded r (open_source o w))
  unfolding open_source
  round-AtRest r (some e) w a = a
  round-AtRest r none w a =
      let held = (open_source none w).0 in
      close-AtRest r.in_time (session r.ending held) (session-Held r.ending held (open-Held w a))

  rounds-AtRest : (rs : List Round) (w : WebhookSource) → AtRest w → AtRest (rounds rs w)
  unfolding rounds
  rounds-AtRest [] w a = a
  rounds-AtRest (r ∷ rs) w a =
      rounds-AtRest rs (concluded r (open_source r.listen_error w))
        (round-AtRest r r.listen_error w a)

-- Over any rounds of Open, a session and Close, whatever the listener and the server answer: the
-- source has no listener at the end, and no listener is left bound. After the Listen of each there
-- is a call that closes it: its own Close, or Shutdown or Close of the server that serves it.
pub listeners_released :
    (id topic : String) (config : Option WebhookConfig) (rs : List Round) (serial : ℕ)
    → let w = rounds rs (new_webhook_source id topic config) in
      (w.listener ≡ none) × (bound serial false w.calls ≡ false)
unfolding new_webhook_source bound AtRest
listeners_released id topic config rs serial =
    rounds-AtRest serial rs (new_webhook_source id topic config) (refl, refl)
