-- ===== src/Server/Manager/Outcome.antt =====
-- internal/server/manager.go: how an admission ends.
use nephtys.Prelude.{
  ℕ, ◌+◌, ◌≡◌, refl, String, Bool, false, Option, none, some, inl, inr, is_some, Option-cases,
  both-branches, arith,
}
use nephtys.Prelude.Map.{get}
use nephtys.Prelude.Result.{ok, err}
use nephtys.Domain.Event.{Bytes}
use nephtys.Domain.Config.{StreamSourceConfig}
use nephtys.Host.{Host}
use nephtys.Pipeline.Builder.{Series, Built, build_from_config}
use nephtys.Server.Manager.{
  Admission, Live, Manager, persisted, acquire, with_generation, claimed, admit, discard_generation,
  retire, note, holder_of, write_error, Effect, acquired, closed,
}
use nephtys.Server.Manager.Ports.{connector_port}
use nephtys.Server.Manager.Settled.{
  SameMaps, same_maps, Since, Settles, written, written-Since, written-store, refused, installed,
}

module _ (persist : Bool) (env : Admission) (cfg : StreamSourceConfig) (m : Manager) where
  -- Nothing of the stream is there yet.
  record Free : Type 0 where
    unknown : is_some (get m.runtimes cfg.id) ≡ false
    unclaimed : holder_of (connector_port cfg) m.port_claims ≡ none

  discarded :
      (h : Manager) (g : Live) {held : ℕ}
      → Since m h 1 held
      → Since m (discard_generation cfg.id g h) 0 held
  unfolding discard_generation retire note
  discarded h g s = record {
    same = record {
      generations = s.same.generations;
      configs = s.same.configs;
      cancels = s.same.cancels;
      dones = s.same.dones;
      runtimes = s.same.runtimes;
      port_claims = s.same.port_claims;
    };
    gens_owed = omega (arith, s.gens_owed);
    sources_owed = s.sources_owed;
  }

  noted : (h : Manager) (e : Effect) → SameMaps m h → SameMaps m (note e h)
  unfolding note
  noted h e s = record {
    generations = s.generations;
    configs = s.configs;
    cancels = s.cancels;
    dones = s.dones;
    runtimes = s.runtimes;
    port_claims = s.port_claims;
  }

  closed-Since :
      (h : Manager) {gens : ℕ} → Since m h gens 1 → Since m (note (closed cfg.id) h) gens 0
  unfolding note
  closed-Since h s = record {
    same = noted h (closed cfg.id) s.same;
    gens_owed = s.gens_owed;
    sources_owed = omega (arith, s.sources_owed);
  }

  acquired-Since :
      (h : Manager) {gens : ℕ} → Since m h gens 0 → Since m (note (acquired cfg.id) h) gens 1
  unfolding note
  acquired-Since h s = record {
    same = noted h (acquired cfg.id) s.same;
    gens_owed = s.gens_owed;
    sources_owed = omega (arith, s.sources_owed);
  }

  persisted-Settles :
      Free
      → (g : Live) (e : Option String) (h : Manager) → Since m h 1 1
      → h.store ≡ m.store
      → Settles persist m cfg (persisted persist cfg g e h)
  unfolding persisted
  persisted-Settles f g none h s k =
      installed (written persist cfg h) g (written-Since persist cfg m h s)
        (written-store persist cfg m h k) f.unknown f.unclaimed
  persisted-Settles f g (some e) h s k = refused _ _ (discarded _ g (closed-Since h s)) k

  acquire-Settles :
      Free
      → (g : Live) (e : Option String) (h : Manager) → Since m h 1 0
      → h.store ≡ m.store
      → Settles persist m cfg (acquire persist env cfg g e h)
  unfolding acquire
  acquire-Settles f g none h s k =
      persisted-Settles f g (write_error persist h.store env.put_error) _ (acquired-Since h s) k
  acquire-Settles f g (some e) h s k = refused _ _ (discarded h g s) k

  kept : (series : Series) (built : ℕ) → SameMaps m (record m { series = series; built = built })
  kept series built = record {
    generations = refl;
    configs = refl;
    cancels = refl;
    dones = refl;
    runtimes = refl;
    port_claims = refl;
  }

  with_generation-Settles :
      Free → (b : Built) → Settles persist m cfg (with_generation persist env cfg b m)
  unfolding with_generation
  with_generation-Settles f (series, err e) =
      refused _ _
        (record { same = kept series m.built; gens_owed = omega arith; sources_owed = omega arith })
        refl
  with_generation-Settles f (series, ok chain) =
      acquire-Settles f _ env.open_error _
        (record {
          same = kept series (m.built + 1);
          gens_owed = omega arith;
          sources_owed = omega arith;
        })
        refl

module _ (host : Host) (hash : Bytes → ℕ) (persist : Bool) (env : Admission)
    (cfg : StreamSourceConfig) (m : Manager) where
  nothing_done : Since m m 0 0
  unfolding same_maps
  nothing_done = record { same = same_maps m; gens_owed = omega arith; sources_owed = omega arith }

  -- An admission either fails, and owes nothing, or installs the stream.
  pub admit-Settles : Settles persist m cfg (admit host hash persist env cfg m)
  unfolding admit claimed
  admit-Settles =
      both-branches (Settles persist m cfg) (is_some (get m.runtimes cfg.id))
        (λ _. refused m _ nothing_done refl)
        (λ unknown. elim (Option-cases (holder_of (connector_port cfg) m.port_claims)) [
          | inl e ↦ rw e (
              with_generation-Settles persist env cfg m
                (record { unknown = unknown; unclaimed = e })
                (build_from_config host hash cfg.id cfg.pipeline m.series))
          | inr (holder, e) ↦ rw e (refused m _ nothing_done refl)
        ])
