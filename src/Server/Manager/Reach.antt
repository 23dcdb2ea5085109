-- ===== src/Server/Manager/Reach.antt =====
-- internal/server/manager.go: everything that can happen to the maps, in any order.
use nephtys.Prelude.{
  ℕ, ◌≡◌, refl, ap, sym, ◌∙◌, String, true, false, Option, none, some, is_some, both-branches,
}
use nephtys.Prelude.Text.{is_blank}
use nephtys.Prelude.Map.{Map, get, put}
use nephtys.Prelude.Result.{ok, err, Check}
use nephtys.Domain.Event.{Bytes}
use nephtys.Domain.Config.{PipelineConfig, StreamSourceConfig}
use nephtys.Host.{Host}
use nephtys.Server.Validate.{validate_stream_config}
use nephtys.Server.Validate.Fields.{StreamError}
use nephtys.Server.Supervisor.{StreamRuntime}
use nephtys.Server.Manager.{
  Admission, Live, Manager, Reply, ManagerError, new_stream_manager, register, admit_failed,
}
use nephtys.Server.Manager.Remove.{remove_stream}
use nephtys.Server.Manager.Ports.{connector_port}
use nephtys.Server.Manager.Update.{begin_update, finish_update}
use nephtys.Server.Manager.Restore.{
  Startup, restore_one, validated, sourced, admitted, source_from_config,
}
use nephtys.Server.Manager.StopAll.{stop_all}
use nephtys.Server.Manager.Outcome.{admit-Settles}
use nephtys.Server.Manager.Settled.{Settles, refused, installed}
use nephtys.Server.Manager.Consistent.{Consistent, SameMaps-Consistent}
use nephtys.Server.Manager.Failed.{fail-Agree, runtime-Agree}
use nephtys.Server.Manager.Preserve.{
  empty-Consistent, stop_all-Consistent, Settles-Consistent, remove-Consistent, begin-Consistent,
  replaced-Consistent,
}

-- One operation that held the lock, with any answers of the source, the store and the clock; a
-- supervisor writes its stream's runtime without the lock. Restore admits ids that are not there yet.
pub data Step (host : Host) (hash : Bytes → ℕ) (m : Manager) : Manager → Type 0 where
  registers :
      (env : Admission) (cfg : StreamSourceConfig)
      → Step host hash m (register host hash env cfg m).0
  removes :
      (delete_error : Option String) (id : String)
      → Step host hash m (remove_stream delete_error id m).0
  begins :
      (id : String) (cfg : Option PipelineConfig)
      → Step host hash m (begin_update host hash id cfg m).0
  finishes :
      (put_error : Option String) (id : String) (cfg : Option PipelineConfig) (next : Live)
      → Step host hash m (finish_update put_error id cfg next m).0
  restores :
      (env : Startup) (cfg : StreamSourceConfig)
      → is_some (get m.runtimes cfg.id) ≡ false
      → Step host hash m (restore_one host hash env cfg m)
  reports :
      (id : String) (rt : StreamRuntime)
      → is_some (get m.runtimes id) ≡ true
      → Step host hash m (record m { runtimes = put m.runtimes id rt })
  stops : Step host hash m (stop_all m)

pub data Reachable (host : Host) (hash : Bytes → ℕ) : Manager → Type 0 where
  begun : (store : Option (Map StreamSourceConfig)) → Reachable host hash (new_stream_manager store)
  stepped : (m h : Manager) → Reachable host hash m → Step host hash m h → Reachable host hash h

module _ (host : Host) (hash : Bytes → ℕ) where
  fail-Consistent :
      (env : Startup) (cfg : StreamSourceConfig) (cause : String) (m : Manager)
      → is_some (get m.runtimes cfg.id) ≡ false
      → Consistent m
      → Consistent (admit_failed env.redact cfg cause env.now m)
  unfolding admit_failed
  fail-Consistent env cfg cause m u c =
      fail-Agree m.generations m.configs m.cancels m.dones m.runtimes m.port_claims c cfg _ u

  -- A refused admission leaves the id unregistered, so that it can be registered as failed.
  admitted-Consistent :
      (env : Startup) (cfg : StreamSourceConfig) (m : Manager) (r : Reply)
      → Settles false m cfg r
      → is_some (get m.runtimes cfg.id) ≡ false
      → Consistent m
      → Consistent (admitted host hash env cfg r)
  unfolding admitted
  admitted-Consistent env cfg m r (refused h e s k) u c =
      fail-Consistent env cfg (env.say e) h (ap (λ x. is_some (get x cfg.id)) s.same.runtimes ∙ u)
        (SameMaps-Consistent m h s.same c)
  admitted-Consistent env cfg m r (installed h g s k v f) u c =
      Settles-Consistent {persist = false} (installed h g s k v f) c

  sourced-Consistent :
      (env : Startup) (cfg : StreamSourceConfig) (e : Option ManagerError) (m : Manager)
      → is_some (get m.runtimes cfg.id) ≡ false
      → Consistent m
      → Consistent (sourced host hash env cfg e m)
  unfolding sourced
  sourced-Consistent env cfg none m u c =
      admitted-Consistent env cfg m _ (admit-Settles host hash false (env.admissions cfg.id) cfg m)
        u c
  sourced-Consistent env cfg (some e) m u c = fail-Consistent env cfg (env.say e) m u c

  validated-Consistent :
      (env : Startup) (cfg : StreamSourceConfig) (v : Check StreamError) (m : Manager)
      → is_some (get m.runtimes cfg.id) ≡ false
      → Consistent m
      → Consistent (validated host hash env cfg v m)
  unfolding validated
  validated-Consistent env cfg (ok x) m u c =
      sourced-Consistent env cfg (source_from_config cfg) m u c
  validated-Consistent env cfg (err e) m u c = fail-Consistent env cfg _ m u c

  restore_one-Consistent :
      (env : Startup) (cfg : StreamSourceConfig) (m : Manager)
      → is_some (get m.runtimes cfg.id) ≡ false
      → Consistent m
      → Consistent (restore_one host hash env cfg m)
  unfolding restore_one
  restore_one-Consistent env cfg m u c =
      both-branches Consistent (is_blank cfg.id) (λ _. c)
        (λ _. validated-Consistent env cfg (validate_stream_config host cfg) m u c)

  Step-Consistent : (m h : Manager) → Step host hash m h → Consistent m → Consistent h
  unfolding register finish_update
  Step-Consistent m h (registers env cfg) c =
      Settles-Consistent (admit-Settles host hash true env cfg m) c
  Step-Consistent m h (removes e id) c = remove-Consistent e id m c
  Step-Consistent m h (begins id cfg) c = begin-Consistent host hash id cfg m c
  Step-Consistent m h (finishes e id cfg next) c =
      replaced-Consistent e id cfg next (get m.generations id) m refl c
  Step-Consistent m h (restores env cfg u) c = restore_one-Consistent env cfg m u c
  Step-Consistent m h (reports id rt r) c =
      runtime-Agree m.generations m.configs m.cancels m.dones m.runtimes m.port_claims c id rt r
  Step-Consistent m h stops c = stop_all-Consistent m

  -- After any sequence of registrations, removals, halves of pipeline updates, restores of ids that
  -- are not there, reports of supervisors and stops, with any answers of the sources and the store,
  -- the maps of the manager agree: configurations and runtimes have the same ids, and each
  -- configuration is under its own; cancels and dones have the ids of the generations, which are
  -- among those of the runtimes; a claimed port is that of its holder's configuration, and a stream
  -- with a generation holds the port that its configuration binds.
  pub maps_agree : (m : Manager) → Reachable host hash m → Consistent m
  maps_agree m (begun store) = empty-Consistent store
  maps_agree m (stepped h x r s) = Step-Consistent h m s (maps_agree h r)

  -- In every reachable state two streams with a generation whose configurations bind the same port
  -- are one stream.
  pub ports_exclusive :
      (m : Manager)
      → Reachable host hash m
      → (a b : String) → (x y : StreamSourceConfig) → is_some (get m.generations a) ≡ true
      → is_some (get m.generations b) ≡ true
      → get m.configs a ≡ some x
      → get m.configs b ≡ some y
      → is_blank (connector_port x) ≡ false
      → connector_port x ≡ connector_port y
      → a ≡ b
  ports_exclusive m r a b x y ga gb ca cb nonblank e =
      let c = maps_agree m r in
      let first = c.held a x ga ca nonblank in
      let second = c.held b y gb cb (ap is_blank (sym e) ∙ nonblank) in
      let both : some a ≡ some b = sym first ∙ ap (get m.port_claims) e ∙ second in cc
