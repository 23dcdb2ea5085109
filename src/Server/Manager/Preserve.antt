-- ===== src/Server/Manager/Preserve.antt =====
-- internal/server/manager.go: each operation keeps the maps in agreement.
use nephtys.Prelude.{
  ℕ, ◌≡◌, refl, ap, ◌∙◌, String, Bool, true, Option, none, some, inl, inr, is_some, Option-cases,
  both-branches, arith,
}
use nephtys.Prelude.Map.{Map, get, put, get-empty}
use nephtys.Prelude.Result.{Result, ok, err}
use nephtys.Domain.Event.{Bytes, connecting}
use nephtys.Domain.Config.{PipelineConfig, StreamSourceConfig}
use nephtys.Host.{Host}
use nephtys.Pipeline.Builder.{Built, build_from_config}
use nephtys.Server.Supervisor.{StreamRuntime, new_stream_runtime}
use nephtys.Server.Manager.{
  Live, Manager, Reply, ManagerError, Effect, new_stream_manager, install, note, retire,
  write_error, discard_generation, store_delete, holder_of, cancelled, awaited, retired,
}
use nephtys.Server.Manager.Remove.{removed, remove_stream, shut_down, forget, note_if}
use nephtys.Server.Manager.Ports.{connector_port}
use nephtys.Server.Manager.Update.{begin_update, replacement, replaced, swap, amended, or_zero}
use nephtys.Server.Manager.StopAll.{stop_all}
use nephtys.Server.Manager.Settled.{SameMaps, same_maps, Settles, refused, installed}
use nephtys.Server.Manager.Consistent.{
  Agree, Consistent, SameMaps-Consistent, put-Agree, remove-Agree, swap-Agree,
}

pub empty-Consistent :
    (store : Option (Map StreamSourceConfig)) → Consistent (new_stream_manager store)
empty-Consistent store = record {
  keyed =
      λ id. ground (arith, get-empty {V = StreamSourceConfig} id, get-empty {V = StreamRuntime} id);
  supervised = λ id. ground (arith, get-empty {V = Unit {0}} id, get-empty {V = Live} id);
  waited = λ id. ground (arith, get-empty {V = Unit {0}} id, get-empty {V = Live} id);
  registered = λ id r. ground (arith, get-empty {V = Live} id, r);
  named = λ id x e. ground (arith, get-empty {V = StreamSourceConfig} id, e);
  claims = λ port id e. ground (arith, get-empty {V = String} port, e);
  held = λ id x r e b. ground (arith, get-empty {V = Live} id, r);
}

pub stop_all-Consistent : (m : Manager) → Consistent (stop_all m)
unfolding stop_all
stop_all-Consistent m = empty-Consistent none

pub Settles-Consistent :
    {persist : Bool} {m : Manager} {cfg : StreamSourceConfig} {r : Reply}
    → Settles persist m cfg r
    → Consistent m
    → Consistent r.0
unfolding install note
Settles-Consistent {m = m} (refused h e s k) c = SameMaps-Consistent m h s.same c
Settles-Consistent {m = m} {cfg = cfg} (installed h g s k u f) c =
    put-Agree h.generations h.configs h.cancels h.dones h.runtimes h.port_claims
      (SameMaps-Consistent m h s.same c) cfg g (new_stream_runtime connecting)
      (ap (λ x. is_some (get x cfg.id)) s.same.runtimes ∙ u)
      (ap (holder_of (connector_port cfg)) s.same.port_claims ∙ f)

note-SameMaps : (e : Effect) (m : Manager) → SameMaps m (note e m)
unfolding note
note-SameMaps e m = record {
  generations = refl;
  configs = refl;
  cancels = refl;
  dones = refl;
  runtimes = refl;
  port_claims = refl;
}

after : {m h k : Manager} → SameMaps m h → SameMaps h k → SameMaps m k
after s t = record {
  generations = t.generations ∙ s.generations;
  configs = t.configs ∙ s.configs;
  cancels = t.cancels ∙ s.cancels;
  dones = t.dones ∙ s.dones;
  runtimes = t.runtimes ∙ s.runtimes;
  port_claims = t.port_claims ∙ s.port_claims;
}

note_if-SameMaps :
    {A : Type 0} (o : Option A) (f : A → Manager → Manager) (m : Manager)
    → ((a : A) → SameMaps m (f a m))
    → SameMaps m (note_if o f m)
unfolding note_if same_maps
note_if-SameMaps none f m s = same_maps m
note_if-SameMaps (some a) f m s = s a

shut_down-SameMaps : (id : String) (m : Manager) → SameMaps m (shut_down id m)
unfolding shut_down retire
shut_down-SameMaps id m =
    let a = note_if (get m.cancels id) (λ _. note (cancelled id)) m in
    let b = note_if (get m.dones id) (λ _. note (awaited id)) a in
    after
      (note_if-SameMaps (get m.cancels id) (λ _. note (cancelled id)) m
        (λ _. note-SameMaps (cancelled id) m))
      (after
        (note_if-SameMaps (get m.dones id) (λ _. note (awaited id)) a
          (λ _. note-SameMaps (awaited id) a))
        (note_if-SameMaps (get m.generations id) retire b
          (λ g. note-SameMaps (retired g.serial) b)))

forget-Consistent : (id : String) (m : Manager) → Consistent m → Consistent (forget id m)
unfolding forget
forget-Consistent id m c =
    remove-Agree m.generations m.configs m.cancels m.dones m.runtimes m.port_claims c id

removed-Consistent :
    (id : String) (e : Option String) (m : Manager) → Consistent m → Consistent (removed id e m).0
unfolding removed
removed-Consistent id (some e) m c = c
removed-Consistent id none m c =
    let m' : Manager = record m { store = store_delete id m.store } in
    forget-Consistent id (shut_down id m')
      (SameMaps-Consistent m' (shut_down id m') (shut_down-SameMaps id m') c)

pub remove-Consistent :
    (e : Option String) (id : String) (m : Manager)
    → Consistent m
    → Consistent (remove_stream e id m).0
unfolding remove_stream
remove-Consistent e id m c =
    both-branches (λ (r : Reply). Consistent r.0) (is_some (get m.runtimes id))
      (λ _. removed-Consistent id (write_error true m.store e) m c) (λ _. c)

replacement-Consistent : (b : Built) (m : Manager) → Consistent m → Consistent (replacement b m).0
unfolding replacement
replacement-Consistent (series, ok chain) m c = c
replacement-Consistent (series, err e) m c = c

pub begin-Consistent :
    (host : Host) (hash : Bytes → ℕ) (id : String) (cfg : Option PipelineConfig) (m : Manager)
    → Consistent m
    → Consistent (begin_update host hash id cfg m).0
unfolding begin_update
begin-Consistent host hash id cfg m c =
    both-branches (λ (r : Manager × Result ManagerError Live). Consistent r.0)
      (is_some (get m.generations id))
      (λ _. replacement-Consistent (build_from_config host hash id cfg m.series) m c) (λ _. c)

amended-Consistent :
    (id : String) (cfg : Option PipelineConfig) (next : Live) (old : StreamSourceConfig)
    (m : Manager)
    → is_some (get m.generations id) ≡ true
    → get m.configs id ≡ some old
    → Consistent m
    → Agree
        (put m.generations id next)
        (put m.configs id (amended id cfg m))
        m.cancels
        m.dones
        m.runtimes
        m.port_claims
unfolding amended connector_port
amended-Consistent id cfg next old m g k c =
    let same : amended id cfg m ≡ record old { pipeline = cfg } =
      ap (λ o. record (or_zero o) { pipeline = cfg }) k in
    rw same (
      swap-Agree m.generations m.configs m.cancels m.dones m.runtimes m.port_claims c id next old
        (record old { pipeline = cfg }) g k refl refl)

swap-Consistent :
    (id : String) (cfg : Option PipelineConfig) (previous next : Live) (e : Option String)
    (m : Manager)
    → get m.generations id ≡ some previous
    → Consistent m
    → Consistent (swap id (amended id cfg m) previous next e m).0
unfolding swap retire note
swap-Consistent id cfg previous next (some e) m g c = c
swap-Consistent id cfg previous next none m g c =
    let live : is_some (get m.generations id) ≡ true = ap is_some g in
    elim (Option-cases (get m.configs id)) [
      | inl e ↦ absurd (ground (arith, e, live, c.keyed id, c.registered id))
      | inr (old, e) ↦ amended-Consistent id cfg next old m live e c
    ]

pub replaced-Consistent :
    (e : Option String) (id : String) (cfg : Option PipelineConfig) (next : Live) (o : Option Live)
    (m : Manager)
    → get m.generations id ≡ o
    → Consistent m
    → Consistent (replaced e id cfg next o m).0
unfolding replaced discard_generation retire note
replaced-Consistent e id cfg next none m g c = c
replaced-Consistent e id cfg next (some previous) m g c =
    swap-Consistent id cfg previous next (write_error true m.store e) m g c
