-- ===== src/Server/Manager/Removal.antt =====
-- internal/server/manager.go: Remove, as its caller sees it.
use nephtys.Prelude.{
  ◌⊎◌, inl, inr, Bool-cases, ◌≡◌, refl, ap, ◌∙◌, String, true, false, Option, none, some, is_some,
  both-branches, arith, eq_iff, ◌∷◌, ◌≢◌,
}
use nephtys.Prelude.Text.{str_eq}
use nephtys.Prelude.Map.{Map, get, get-remove, get-drop_if}
use nephtys.Server.Manager.{
  Live, Manager, Reply, note, retire, store_delete, write_error, cancelled, awaited, retired,
}
use nephtys.Server.Manager.Remove.{
  removed, remove_stream, shut_down, forget, note_if, release_claims,
}
use nephtys.Server.Manager.Consistent.{Consistent}

-- Nothing of the stream is left, and the store has forgotten it.
pub record Gone (id : String) (m h : Manager) : Type 0 where
  pub runtime : get h.runtimes id ≡ none
  pub config : get h.configs id ≡ none
  pub pipeline : get h.generations id ≡ none
  pub supervisor : get h.cancels id ≡ none
  pub done : get h.dones id ≡ none
  pub claims : (port : String) → get h.port_claims port ≢ some id
  pub series : get h.series id ≡ none
  pub store : h.store ≡ store_delete id m.store

shut_down-trace :
    (id : String) (m : Manager) (g : Live)
    → get m.cancels id ≡ some tt
    → get m.dones id ≡ some tt
    → get m.generations id ≡ some g
    → (shut_down id m).trace ≡ retired g.serial ∷ awaited id ∷ cancelled id ∷ m.trace
unfolding shut_down note_if retire note
shut_down-trace id m g k d p = rw k (rw d (rw p refl))

shut_down-store : (id : String) (m : Manager) → (shut_down id m).store ≡ m.store
unfolding shut_down note_if retire note
shut_down-store id m = ground arith

forget-store : (id : String) (m : Manager) → (forget id m).store ≡ m.store
unfolding forget
forget-store id m = refl

released :
    (id : String) (ps : Map String) (port : String) → get (release_claims id ps) port ≢ some id
unfolding release_claims
released id ps port e =
    ground (arith, e, get-drop_if (λ holder. str_eq holder id) ps port, eq_iff id id)

forget-Gone :
    (id : String) (m h : Manager) → h.store ≡ store_delete id m.store → Gone id m (forget id h)
unfolding forget
forget-Gone id m h k = record {
  runtime = ground (arith, get-remove h.runtimes id id, eq_iff id id);
  config = ground (arith, get-remove h.configs id id, eq_iff id id);
  pipeline = ground (arith, get-remove h.generations id id, eq_iff id id);
  supervisor = ground (arith, get-remove h.cancels id id, eq_iff id id);
  done = ground (arith, get-remove h.dones id id, eq_iff id id);
  claims = released id h.port_claims;
  series = ground (arith, get-remove h.series id id, eq_iff id id);
  store = k;
}

removed-Gone :
    (id : String) (e : Option String) (m : Manager)
    → is_some (removed id e m).1 ≡ false
    → Gone id m (removed id e m).0
unfolding removed
removed-Gone id (some e) m x = cc
removed-Gone id none m x =
    let m' : Manager = record m { store = store_delete id m.store } in
    forget-Gone id m (shut_down id m') (shut_down-store id m')

-- After a Remove that returns no error nothing of the stream is in the maps, no port is claimed by
-- it, its dedup gauge is gone and the store, if there is one, has no entry for it.
pub remove_completes :
    (e : Option String) (id : String) (m : Manager)
    → is_some (remove_stream e id m).1 ≡ false
    → Gone id m (remove_stream e id m).0
unfolding remove_stream
remove_completes e id m =
    both-branches (λ (r : Reply). is_some r.1 ≡ false → Gone id m r.0) (is_some (get m.runtimes id))
      (λ _ x. removed-Gone id (write_error true m.store e) m x) (λ _ x. cc)

removed-refused :
    (id : String) (e : Option String) (m : Manager)
    → is_some (removed id e m).1 ≡ true
    → (removed id e m).0 ≡ m
unfolding removed
removed-refused id (some e) m x = refl
removed-refused id none m x = cc

-- A Remove that returns an error leaves the manager as it was.
pub remove_refused :
    (e : Option String) (id : String) (m : Manager)
    → is_some (remove_stream e id m).1 ≡ true
    → (remove_stream e id m).0 ≡ m
unfolding remove_stream
remove_refused e id m =
    both-branches (λ (r : Reply). is_some r.1 ≡ true → r.0 ≡ m) (is_some (get m.runtimes id))
      (λ _ x. removed-refused id (write_error true m.store e) m x) (λ _ x. refl)

unit_there : (o : Option (Unit {0})) → is_some o ≡ true → o ≡ some tt
unit_there none e = cc
unit_there (some tt) e = refl

removed-trace :
    (id : String) (e : Option String) (m : Manager) (g : Live)
    → Consistent m
    → get m.generations id ≡ some g
    → is_some (removed id e m).1 ≡ false
    → (removed id e m).0.trace ≡ retired g.serial ∷ awaited id ∷ cancelled id ∷ m.trace
unfolding removed forget
removed-trace id (some e) m g c p x = cc
removed-trace id none m g c p x =
    let live : is_some (get m.generations id) ≡ true = ap is_some p in
    shut_down-trace id (record m { store = store_delete id m.store }) g
      (unit_there (get m.cancels id) (c.supervised id ∙ live))
      (unit_there (get m.dones id) (c.waited id ∙ live)) p

-- On maps that agree, a Remove of a stream with a generation that returns no error cancels the
-- supervisor, then waits for it, then retires the generation, each once.
pub teardown_ordered :
    (e : Option String) (id : String) (m : Manager) (g : Live)
    → Consistent m
    → get m.generations id ≡ some g
    → is_some (remove_stream e id m).1 ≡ false
    → (remove_stream e id m).0.trace ≡ retired g.serial ∷ awaited id ∷ cancelled id ∷ m.trace
unfolding remove_stream
teardown_ordered e id m g c p =
    both-branches
      (λ (r : Reply).
        is_some r.1 ≡ false → r.0.trace ≡ retired g.serial ∷ awaited id ∷ cancelled id ∷ m.trace)
      (is_some (get m.runtimes id)) (λ _ x. removed-trace id (write_error true m.store e) m g c p x)
      (λ _ x. cc)

-- A Remove either returns no error, and then nothing of the stream is in the maps, no port is claimed
-- by it, its dedup gauge is gone and the store, if there is one, has no entry for it and is otherwise
-- as it was; or it returns an error, and then the manager is as it was.
pub remove_all_or_nothing :
    (e : Option String) (id : String) (m : Manager)
    → let r = remove_stream e id m in
      ((is_some r.1 ≡ false) × Gone id m r.0) ⊎ ((is_some r.1 ≡ true) × (r.0 ≡ m))
remove_all_or_nothing e id m = elim (Bool-cases (is_some (remove_stream e id m).1)) [
  | inl failed ↦ inr (failed, remove_refused e id m failed)
  | inr went ↦ inl (went, remove_completes e id m went)
]
