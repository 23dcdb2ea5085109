-- ===== src/Server/Manager/Settled.antt =====
-- internal/server/manager.go: what an admission owes, and how it settles.
use nephtys.Prelude.{
  ℕ, ◌+◌, ◌≡◌, refl, ap, Bool, true, false, none, some, is_some, if◌then◌else◌, List, [], ◌∷◌,
}
use nephtys.Prelude.Map.{get}
use nephtys.Domain.Config.{StreamSourceConfig}
use nephtys.Server.Manager.{
  Live, Manager, Reply, install, holder_of, ManagerError, store_put, Effect, acquired, closed,
  retired,
}
use nephtys.Server.Manager.Ports.{connector_port}

-- The maps of the streams are as they were.
pub record SameMaps (m h : Manager) : Type 0 where
  pub generations : h.generations ≡ m.generations
  pub configs : h.configs ≡ m.configs
  pub cancels : h.cancels ≡ m.cancels
  pub dones : h.dones ≡ m.dones
  pub runtimes : h.runtimes ≡ m.runtimes
  pub port_claims : h.port_claims ≡ m.port_claims

unfoldable pub same_maps : (m : Manager) → SameMaps m m
same_maps m = record {
  generations = refl;
  configs = refl;
  cancels = refl;
  dones = refl;
  runtimes = refl;
  port_claims = refl;
}

abbrev pub retirements : List Effect → ℕ
retirements [] = 0
retirements (retired n ∷ l) = retirements l + 1
retirements (_ ∷ l) = retirements l

abbrev pub acquisitions : List Effect → ℕ
acquisitions [] = 0
acquisitions (acquired id ∷ l) = acquisitions l + 1
acquisitions (_ ∷ l) = acquisitions l

abbrev pub closings : List Effect → ℕ
closings [] = 0
closings (closed id ∷ l) = closings l + 1
closings (_ ∷ l) = closings l

-- From m to h the maps stay, and this many generations are built and not retired, and this many
-- sources acquired and not closed.
pub record Since (m h : Manager) (gens held : ℕ) : Type 0 where
  pub same : SameMaps m h
  pub gens_owed : h.built + retirements m.trace ≡ m.built + retirements h.trace + gens
  pub sources_owed :
      acquisitions h.trace + closings m.trace ≡ acquisitions m.trace + closings h.trace + held

-- How an admission ends. A refused one owes nothing and leaves the store as it was.
pub data Settles (persist : Bool) (m : Manager) (cfg : StreamSourceConfig) : Reply → Type 0 where
  refused :
      (h : Manager) (e : ManagerError)
      → Since m h 0 0
      → h.store ≡ m.store
      → Settles persist m cfg (h, some e)
  installed :
      (h : Manager) (g : Live)
      → Since m h 1 1
      → h.store ≡ (if persist then store_put cfg m.store else m.store)
      → is_some (get m.runtimes cfg.id) ≡ false
      → holder_of (connector_port cfg) m.port_claims ≡ none
      → Settles persist m cfg (install cfg g h, none)

-- What `install` starts from.
abbrev pub written : Bool → StreamSourceConfig → Manager → Manager
written persist cfg h = if persist then record h { store = store_put cfg h.store } else h

pub written-Since :
    (persist : Bool) (cfg : StreamSourceConfig) (m h : Manager)
    → Since m h 1 1
    → Since m (written persist cfg h) 1 1
written-Since true cfg m h s = record {
  same = record {
    generations = s.same.generations;
    configs = s.same.configs;
    cancels = s.same.cancels;
    dones = s.same.dones;
    runtimes = s.same.runtimes;
    port_claims = s.same.port_claims;
  };
  gens_owed = s.gens_owed;
  sources_owed = s.sources_owed;
}
written-Since false cfg m h s = s

pub written-store :
    (persist : Bool) (cfg : StreamSourceConfig) (m h : Manager)
    → h.store ≡ m.store
    → (written persist cfg h).store ≡ (if persist then store_put cfg m.store else m.store)
written-store true cfg m h k = ap (store_put cfg) k
written-store false cfg m h k = k
