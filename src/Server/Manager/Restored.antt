-- ===== src/Server/Manager/Restored.antt =====
-- internal/server/manager.go: Restore leaves no stored stream out.
use nephtys.Prelude.{
  ℕ, ◌≡◌, refl, ap, ◌∙◌, String, Bool, false, Option, none, some, is_some, both-branches, List,
  arith, eq_iff, ◌∷◌, [], any, ◌||◌,
}
use nephtys.Prelude.Text.{str_eq, is_blank}
use nephtys.Prelude.Map.{Map, get, put, get-put}
use nephtys.Prelude.Result.{ok, err, Check}
use nephtys.Domain.Event.{Bytes, connecting, error}
use nephtys.Domain.Config.{StreamSourceConfig}
use nephtys.Host.{Host}
use nephtys.Server.Validate.{validate_stream_config}
use nephtys.Server.Validate.Fields.{StreamError}
use nephtys.Server.Supervisor.{StreamRuntime, new_stream_runtime, record_failure}
use nephtys.Server.Manager.{Manager, Reply, ManagerError, admit_failed, install, note}
use nephtys.Server.Manager.Restore.{
  Startup, restore_one, restore_all, validated, sourced, admitted, source_from_config, sort_by_id,
  insert, restore, with_store, loaded,
}
use nephtys.Server.Manager.Outcome.{admit-Settles}
use nephtys.Server.Manager.Settled.{Settles, refused, installed}

abbrev pub registered : Manager → String → Bool
registered m id = is_some (get m.runtimes id)

abbrev pub has_id : String → StreamSourceConfig → Bool
has_id id cfg = str_eq id cfg.id

any-insert :
    (p : StreamSourceConfig → Bool) (x : StreamSourceConfig) (ys : List StreamSourceConfig)
    → any p (insert x ys) ≡ (p x || any p ys)
unfolding insert
any-insert p x [] = refl
any-insert p x (y ∷ ys) = ground (arith, any-insert p x ys)

any-sort :
    (p : StreamSourceConfig → Bool) (xs : List StreamSourceConfig)
    → any p (sort_by_id xs) ≡ any p xs
unfolding sort_by_id
any-sort p [] = refl
any-sort p (x ∷ xs) = any-insert p x (sort_by_id xs) ∙ ap (λ b. p x || b) (any-sort p xs)

-- From m to h the stream of the configuration is registered, and no other stream comes or goes.
abbrev Adds : StreamSourceConfig → Manager → Manager → Type 0
Adds cfg m h = (id : String) → registered h id ≡ (has_id id cfg || registered m id)

put-Adds :
    (cfg : StreamSourceConfig) (rt : StreamRuntime) (m : Manager) (runtimes : Map StreamRuntime)
    → runtimes ≡ put m.runtimes cfg.id rt
    → (id : String) → is_some (get runtimes id) ≡ (has_id id cfg || registered m id)
put-Adds cfg rt m runtimes e id =
    rw e (ground (arith, get-put m.runtimes cfg.id id rt, eq_iff cfg.id id, eq_iff id cfg.id))

module _ (host : Host) (hash : Bytes → ℕ) (env : Startup) where
  fail-Adds :
      (cfg : StreamSourceConfig) (cause : String) (m h : Manager)
      → h.runtimes ≡ m.runtimes
      → Adds cfg m (admit_failed env.redact cfg cause env.now h)
  unfolding admit_failed
  fail-Adds cfg cause m h e =
      let rt = record_failure env.redact (some cause) env.now (new_stream_runtime error) in
      put-Adds cfg rt m _ (ap (λ x. put x cfg.id rt) e)

  admitted-Adds :
      (cfg : StreamSourceConfig) (m : Manager) (r : Reply)
      → Settles false m cfg r
      → Adds cfg m (admitted host hash env cfg r)
  unfolding admitted install note
  admitted-Adds cfg m r (refused h e s k) = fail-Adds cfg (env.say e) m h s.same.runtimes
  admitted-Adds cfg m r (installed h g s k v f) =
      put-Adds cfg (new_stream_runtime connecting) m _
        (ap (λ x. put x cfg.id (new_stream_runtime connecting)) s.same.runtimes)

  sourced-Adds :
      (cfg : StreamSourceConfig) (e : Option ManagerError) (m : Manager)
      → Adds cfg m (sourced host hash env cfg e m)
  unfolding sourced
  sourced-Adds cfg none m =
      admitted-Adds cfg m _ (admit-Settles host hash false (env.admissions cfg.id) cfg m)
  sourced-Adds cfg (some e) m = fail-Adds cfg (env.say e) m m refl

  validated-Adds :
      (cfg : StreamSourceConfig) (v : Check StreamError) (m : Manager)
      → Adds cfg m (validated host hash env cfg v m)
  unfolding validated
  validated-Adds cfg (ok x) m = sourced-Adds cfg (source_from_config cfg) m
  validated-Adds cfg (err e) m = fail-Adds cfg _ m m refl

  -- A configuration without an id is skipped.
  restore_one-registered :
      (cfg : StreamSourceConfig) (m : Manager) (id : String)
      → is_blank id ≡ false
      → registered (restore_one host hash env cfg m) id ≡ (has_id id cfg || registered m id)
  unfolding restore_one
  restore_one-registered cfg m id b =
      both-branches (λ h. registered h id ≡ (has_id id cfg || registered m id)) (is_blank cfg.id)
        (λ e. ground (arith, e, b, eq_iff id cfg.id, eq_iff cfg.id ""))
        (λ _. validated-Adds cfg (validate_stream_config host cfg) m id)

  restore_all-registered :
      (cfgs : List StreamSourceConfig) (m : Manager) (id : String)
      → is_blank id ≡ false
      → registered (restore_all host hash env cfgs m) id ≡ (any (has_id id) cfgs || registered m id)
  unfolding restore_all
  restore_all-registered [] m id b = refl
  restore_all-registered (cfg ∷ cfgs) m id b =
      restore_all-registered cfgs (restore_one host hash env cfg m) id b
      ∙ ap (λ r. any (has_id id) cfgs || r) (restore_one-registered cfg m id b)
      ∙ ground arith

  -- A Restore whose List answers registers exactly the ids of the configurations that it lists,
  -- beside those that were registered, whatever validation, admission and the sources say.
  pub restore-registered :
      (m : Manager) (kv : Map StreamSourceConfig) (listed : List StreamSourceConfig) (id : String)
      → m.store ≡ some kv
      → is_blank id ≡ false
      → registered (restore host hash env (ok listed) m).0 id
        ≡ (any (has_id id) listed || registered m id)
  unfolding restore with_store loaded
  restore-registered m kv listed id s b =
      ap (λ o. registered (with_store host hash env (ok listed) o m).0 id) s
      ∙ restore_all-registered (sort_by_id listed) m id b
      ∙ ap (λ x. x || registered m id) (any-sort (has_id id) listed)

  -- One whose List fails registers none.
  pub restore-failed :
      (m : Manager) (kv : Map StreamSourceConfig) (e : String)
      → m.store ≡ some kv
      → (restore host hash env (err e) m).0 ≡ m
  unfolding restore with_store loaded
  restore-failed m kv e s = ap (λ o. (with_store host hash env (err e) o m).0) s
