-- ===== src/Server/Manager/Swap.antt =====
-- internal/server/manager.go: UpdatePipeline, as its caller sees it.
use nephtys.Prelude.{
  ◌≡◌, refl, String, true, false, Option, none, some, ◌⊎◌, inl, inr, is_some, arith, eq_iff, ◌∷◌,
}
use nephtys.Prelude.Text.{str_eq}
use nephtys.Prelude.Map.{get, get-put}
use nephtys.Domain.Config.{PipelineConfig}
use nephtys.Server.Manager.{
  Live, Manager, Reply, discard_generation, note, retire, store_put, write_error, retired,
}
use nephtys.Server.Manager.Update.{finish_update, replaced, swap, amended, or_zero}
use nephtys.Server.Manager.Settled.{SameMaps}

-- A swap: from `previous` to `next`, in the manager and in the store.
pub record Swapped (id : String) (cfg : Option PipelineConfig) (previous next : Live)
    (m h : Manager) : Type 0 where
  pub pipeline : get h.generations id ≡ some next
  pub config : get h.configs id ≡ some (record (or_zero (get m.configs id)) { pipeline = cfg })
  pub store : h.store ≡ store_put (record (or_zero (get m.configs id)) { pipeline = cfg }) m.store
  pub others :
      (j : String)
      → str_eq id j ≡ false
      → (get h.generations j ≡ get m.generations j) × (get h.configs j ≡ get m.configs j)
  pub runtimes : h.runtimes ≡ m.runtimes
  pub port_claims : h.port_claims ≡ m.port_claims
  pub trace : h.trace ≡ retired previous.serial ∷ m.trace

-- No swap: the replacement is retired, and the manager and the store are as they were.
pub record Kept (next : Live) (m h : Manager) : Type 0 where
  pub same : SameMaps m h
  pub store : h.store ≡ m.store
  pub trace : h.trace ≡ retired next.serial ∷ m.trace

module _ (id : String) (cfg : Option PipelineConfig) (next : Live) (m : Manager) where
  -- By the error that comes back.
  Finishes : Option Live → Reply → Type 0
  Finishes previous r =
      ((is_some r.1 ≡ true) × Kept next m r.0)
      ⊎ ((is_some r.1 ≡ false) × (p : Live) × (previous ≡ some p) × Swapped id cfg p next m r.0)

  swap-Finishes :
      (p : Live) (e : Option String) → Finishes (some p) (swap id (amended id cfg m) p next e m)
  unfolding Finishes swap amended retire note
  swap-Finishes p none = inr (
    refl,
    p,
    refl,
    record {
      pipeline = ground (arith, get-put m.generations id id next, eq_iff id id);
      config = ground (arith, get-put m.configs id id (amended id cfg m), eq_iff id id);
      store = refl;
      others = λ j n. (
        ground (arith, get-put m.generations id j next, n),
        ground (arith, get-put m.configs id j (amended id cfg m), n),
      );
      runtimes = refl;
      port_claims = refl;
      trace = refl;
    },
  )
  swap-Finishes p (some e) = inl (
    refl,
    record {
      same = record {
        generations = refl;
        configs = refl;
        cancels = refl;
        dones = refl;
        runtimes = refl;
        port_claims = refl;
      };
      store = refl;
      trace = refl;
    },
  )

  replaced-Finishes :
      (e : Option String) (o : Option Live) → Finishes o (replaced e id cfg next o m)
  unfolding Finishes replaced discard_generation retire note
  replaced-Finishes e none = inl (
    refl,
    record {
      same = record {
        generations = refl;
        configs = refl;
        cancels = refl;
        dones = refl;
        runtimes = refl;
        port_claims = refl;
      };
      store = refl;
      trace = refl;
    },
  )
  replaced-Finishes e (some p) = swap-Finishes p (write_error true m.store e)

  -- The second half of UpdatePipeline, on any state of the manager: with an error, the maps and
  -- the store are as they were and the replacement is retired; with none, the stream publishes
  -- through the replacement, its configuration with the pipeline replaced is in force and is what
  -- the store was given, the generations and configurations of the others are as they were, and
  -- the generation that was in force is retired. One generation is retired either way.
  pub update_all_or_nothing :
      (e : Option String)
      → let r = finish_update e id cfg next m in
        ((is_some r.1 ≡ true) × Kept next m r.0)
        ⊎ ((is_some r.1 ≡ false)
            × (p : Live) × (get m.generations id ≡ some p)
            × Swapped id cfg p next m r.0)
  unfolding finish_update Finishes
  update_all_or_nothing e = replaced-Finishes e (get m.generations id)
