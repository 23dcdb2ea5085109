-- ===== src/Server/Manager/Admit.antt =====
-- internal/server/manager.go: Register, as its caller sees it.
use nephtys.Prelude.{
  ◌⊎◌, inl, inr, Bool-cases, ℕ, ◌≡◌, Bool, true, false, some, is_some, if◌then◌else◌, arith, eq_iff,
}
use nephtys.Prelude.Text.{is_blank}
use nephtys.Prelude.Map.{get, get-put}
use nephtys.Domain.Event.{Bytes, connecting}
use nephtys.Domain.Config.{StreamSourceConfig}
use nephtys.Host.{Host}
use nephtys.Server.Supervisor.{new_stream_runtime}
use nephtys.Server.Manager.{Admission, Manager, Reply, install, note, register, claim, store_put}
use nephtys.Server.Manager.Ports.{connector_port}
use nephtys.Server.Manager.Outcome.{admit-Settles}
use nephtys.Server.Manager.Settled.{Since, Settles, refused, installed}

-- What a caller that got an error finds: the maps and the store of before, every generation that was
-- built retired, every source that was acquired closed.
pub record Untouched (m h : Manager) : Type 0 where
  pub owes : Since m h 0 0
  pub store : h.store ≡ m.store

Settles-Untouched :
    {persist : Bool} {m : Manager} {cfg : StreamSourceConfig} {r : Reply}
    → Settles persist m cfg r
    → is_some r.1 ≡ true
    → Untouched m r.0
Settles-Untouched (refused h e s k) x = record { owes = s; store = k }
Settles-Untouched (installed h g s k u f) x = cc

-- What a caller that got no error finds.
pub record Holds (persist : Bool) (m : Manager) (cfg : StreamSourceConfig) (h : Manager)
    : Type 0 where
  pub was_free : is_some (get m.runtimes cfg.id) ≡ false
  pub config : get h.configs cfg.id ≡ some cfg
  pub runtime : get h.runtimes cfg.id ≡ some (new_stream_runtime connecting)
  pub supervised : is_some (get h.cancels cfg.id) ≡ true
  pub pipeline : is_some (get h.generations cfg.id) ≡ true
  pub port :
      is_blank (connector_port cfg) ≡ false → get h.port_claims (connector_port cfg) ≡ some cfg.id
  pub store : h.store ≡ (if persist then store_put cfg m.store else m.store)

Settles-Holds :
    {persist : Bool} {m : Manager} {cfg : StreamSourceConfig} {r : Reply}
    → Settles persist m cfg r
    → is_some r.1 ≡ false
    → Holds persist m cfg r.0
unfolding install note claim
Settles-Holds (refused h e s k) x = cc
Settles-Holds {cfg = cfg} (installed h g s k u f) x = record {
  was_free = u;
  config = ground (arith, get-put h.configs cfg.id cfg.id cfg, eq_iff cfg.id cfg.id);
  runtime = ground (
    arith,
    get-put h.runtimes cfg.id cfg.id (new_stream_runtime connecting),
    eq_iff cfg.id cfg.id,
  );
  supervised = ground (arith, get-put h.cancels cfg.id cfg.id tt, eq_iff cfg.id cfg.id);
  pipeline = ground (arith, get-put h.generations cfg.id cfg.id g, eq_iff cfg.id cfg.id);
  port = λ b. ground (
    arith,
    b,
    get-put h.port_claims (connector_port cfg) (connector_port cfg) cfg.id,
    eq_iff (connector_port cfg) (connector_port cfg),
  );
  store = k;
}

module _ (host : Host) (hash : Bytes → ℕ) (env : Admission) (cfg : StreamSourceConfig)
    (m : Manager) where
  -- A Register that returns an error leaves the maps and the store as they were, has retired each
  -- generation that it built and closed each source that it opened.
  pub refused_leaves_nothing :
      is_some (register host hash env cfg m).1 ≡ true → Untouched m (register host hash env cfg m).0
  unfolding register
  refused_leaves_nothing e = Settles-Untouched (admit-Settles host hash true env cfg m) e

  -- A Register that returns no error found the id unregistered, and leaves the stream with its
  -- configuration, a connecting runtime, a supervisor, a generation and the claim of the port that
  -- it binds; the store, if there is one, holds the configuration under the id and is otherwise as
  -- it was.
  pub admitted_is_durable :
      is_some (register host hash env cfg m).1 ≡ false
      → Holds true m cfg (register host hash env cfg m).0
  unfolding register
  admitted_is_durable e = Settles-Holds (admit-Settles host hash true env cfg m) e

  -- A Register either returns no error, and then it found the id unregistered and leaves the stream
  -- with its configuration, a connecting runtime, a supervisor, a generation and the claim of the port
  -- that it binds, and the store, if there is one, holds the configuration under the id and is
  -- otherwise as it was; or it returns an error, and then the maps and the store are as they were, each
  -- generation that it built is retired and each source that it opened is closed.
  pub register_all_or_nothing :
      let r = register host hash env cfg m in
      ((is_some r.1 ≡ false) × Holds true m cfg r.0) ⊎ ((is_some r.1 ≡ true) × Untouched m r.0)
  register_all_or_nothing = elim (Bool-cases (is_some (register host hash env cfg m).1)) [
    | inl failed ↦ inr (failed, refused_leaves_nothing failed)
    | inr held ↦ inl (held, admitted_is_durable held)
  ]
