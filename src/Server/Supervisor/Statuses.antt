-- ===== src/Server/Supervisor/Statuses.antt =====
-- internal/server/manager.go: the steps between the statuses of a stream.
use nephtys.Prelude.{◌≡◌, refl, Bool, true, false, List, [], ◌∷◌, subst, ◌&&◌, ◌||◌}
use nephtys.Domain.Event.{SourceStatus, connecting, running, reconnecting, stopped, error}
use nephtys.Server.Supervisor.{Supervision, set_status}

-- The steps of the state diagram of docs/LIFECYCLE.md, by the statuses that its table gives to its
-- states: connecting and running are themselves, backoff is reconnecting and failed is error.
abbrev pub documented : SourceStatus → SourceStatus → Bool
documented connecting running = true
documented connecting stopped = true
documented running reconnecting = true
documented running stopped = true
documented reconnecting connecting = true
documented reconnecting stopped = true
documented reconnecting error = true
documented _ _ = false

-- The steps that the supervisor takes beyond that diagram: a session that ends before it is ready
-- or on a spent budget, an Open that fails on a restart, and a status that is set again.
abbrev pub shortcut : SourceStatus → SourceStatus → Bool
shortcut connecting connecting = true
shortcut connecting reconnecting = true
shortcut connecting error = true
shortcut running error = true
shortcut reconnecting reconnecting = true
shortcut _ _ = false

-- Whether `b` may come right after `a`.
unfoldable pub follows : SourceStatus → SourceStatus → Bool
follows a b = documented a b || shortcut a b

-- The last status first.
unfoldable pub is_lawful : List SourceStatus → Bool
unfolding follows
is_lawful [] = true
is_lawful (b ∷ []) = true
is_lawful (b ∷ a ∷ l) = follows a b && is_lawful (a ∷ l)

unfoldable pub is_terminal : SourceStatus → Bool
is_terminal stopped = true
is_terminal error = true
is_terminal _ = false

-- The history ends in the status in force, and takes only the steps of `follows`.
pub record Traced (s : Supervision) : Type 0 where
  pub earlier : List SourceStatus
  pub latest : s.history ≡ s.runtime.status ∷ earlier
  pub lawful : is_lawful s.history ≡ true

pub follows-live :
    (st : SourceStatus)
    → follows st reconnecting ≡ true
    → (follows st stopped ≡ true) × (follows st error ≡ true)
unfolding follows
follows-live connecting e = (refl, refl)
follows-live running e = (refl, refl)
follows-live reconnecting e = (refl, refl)
follows-live _ e = cc

pub set_status-Traced :
    (st : SourceStatus) (s : Supervision)
    → follows s.runtime.status st ≡ true
    → Traced s
    → Traced (set_status st s)
unfolding set_status is_lawful
set_status-Traced st s f r = record {
  earlier = s.history;
  latest = refl;
  lawful = rw r.latest (rw f (subst (λ l. is_lawful l ≡ true) r.latest r.lawful));
}
