-- ===== src/Server/Manager/Restarted.antt =====
-- internal/server/manager.go: the streams after a restart, which reads nothing but the store.
use nephtys.Prelude.{
  ℕ, ◌≡◌, refl, ap, sym, ◌∙◌, String, Bool, true, false, not, ◌&&◌, ◌||◌, Option, some, inl, inr,
  is_some, none, List, [], ◌∷◌, arith, eq_iff, Bool-cases, Option-cases, map, any,
}
use nephtys.Prelude.Text.{str_eq, is_blank}
use nephtys.Prelude.Map.{
  Map, get, put, remove, get-empty, get-put, get-remove, bindings, lookup, lookup-bindings,
  any-bindings,
}
use nephtys.Prelude.Result.{Result, ok, err}
use nephtys.Domain.Event.{Bytes}
use nephtys.Domain.Config.{StreamSourceConfig}
use nephtys.Host.{Host}
use nephtys.Server.Manager.{
  Manager, Admission, new_stream_manager, register, store_put, store_delete,
}
use nephtys.Server.Manager.Remove.{remove_stream}
use nephtys.Server.Manager.Restore.{Startup, restore}
use nephtys.Server.Manager.Admit.{register_all_or_nothing}
use nephtys.Server.Manager.Removal.{remove_all_or_nothing}
use nephtys.Server.Manager.Restored.{registered, has_id, restore-registered, restore-failed}

-- Every configuration is stored under its id.
abbrev pub Keyed : Map StreamSourceConfig → Type 0
Keyed kv = (key : String) (cfg : StreamSourceConfig) → get kv key ≡ some cfg → cfg.id ≡ key

put-Keyed :
    (kv : Map StreamSourceConfig) (cfg : StreamSourceConfig) → Keyed kv → Keyed (put kv cfg.id cfg)
put-Keyed kv cfg k key c e =
    ground (arith, e, get-put kv cfg.id key cfg, eq_iff cfg.id key, k key c)

remove-Keyed : (kv : Map StreamSourceConfig) (id : String) → Keyed kv → Keyed (remove kv id)
remove-Keyed kv id k key c e = ground (arith, e, get-remove kv id key, k key c)

-- A key that is there is seen by the loop.
any-lookup :
    (id : String) (cfg : StreamSourceConfig) (l : List (String × StreamSourceConfig))
    → cfg.id ≡ id
    → lookup id l ≡ some cfg
    → any (λ b. has_id id b.1) l ≡ true
unfolding lookup
any-lookup id cfg [] n e = cc
any-lookup id cfg ((j, x) ∷ l) n e = elim (Bool-cases (str_eq j id)) [
  | inl same ↦
      let own : x ≡ cfg = ground (arith, same, e) in
      let here : str_eq id x.id ≡ true = ground (arith, ap (λ c. c.id) own, n, eq_iff id x.id) in
      ground (arith, here)
  | inr other ↦ ground (arith, any-lookup id cfg l n (ground (arith, other, e)))
]

-- The ids that the loop over the store sees are its keys.
stored_ids :
    (kv : Map StreamSourceConfig) (id : String)
    → Keyed kv
    → any (λ b. has_id id b.1) (bindings kv) ≡ is_some (get kv id)
stored_ids kv id k = elim (Option-cases (get kv id)) [
  | inl missing ↦ elim (Bool-cases (any (λ b. has_id id b.1) (bindings kv))) [
    | inl seen ↦
        let (b, same, found) = any-bindings (λ b. has_id id b.1) kv seen in
        let key : b.0 ≡ id = sym (k b.0 b.1 found) ∙ sym ((eq_iff id b.1.id).0 same) in
        let there : get kv id ≡ some b.1 = ap (get kv) (sym key) ∙ found in
        seen ∙ sym (ap is_some there)
    | inr unseen ↦ unseen ∙ sym (ap is_some missing)
  ]
  | inr (cfg, there) ↦
      any-lookup id cfg (bindings kv) (k id cfg there) (lookup-bindings id kv ∙ there)
      ∙ sym (ap is_some there)
]

or_false : (b : Bool) → (b || false) ≡ b
or_false true = refl
or_false false = refl

-- A store that is there and keyed, and whether it holds the id.
abbrev Stores : Option (Map StreamSourceConfig) → String → Bool → Type 0
Stores store id held =
    (kv : Map StreamSourceConfig) × (store ≡ some kv) × Keyed kv × (is_some (get kv id) ≡ held)

register-Stores :
    (host : Host) (hash : Bytes → ℕ) (adm : Admission) (cfg : StreamSourceConfig) (m : Manager)
    (kv : Map StreamSourceConfig)
    → m.store ≡ some kv
    → Keyed kv
    → let r = register host hash adm cfg m in
      Stores r.0.store cfg.id (not (is_some r.1) || is_some (get kv cfg.id))
register-Stores host hash adm cfg m kv s k = elim (register_all_or_nothing host hash adm cfg m) [
  | inl (done, held) ↦ (
    put kv cfg.id cfg,
    held.store ∙ ap (store_put cfg) s,
    put-Keyed kv cfg k,
    ground (arith, done, get-put kv cfg.id cfg.id cfg, eq_iff cfg.id cfg.id),
  )
  | inr (refused, same) ↦ (kv, same.store ∙ s, k, ground (arith, refused))
]

remove-Stores :
    (delete_error : Option String) (id : String) (m : Manager) (held : Bool)
    → Stores m.store id held
    → let d = remove_stream delete_error id m in Stores d.0.store id (is_some d.1 && held)
remove-Stores delete_error id m held (kv, s, k, h) =
    elim (remove_all_or_nothing delete_error id m) [
      | inl (done, gone) ↦ (
        remove kv id,
        gone.store ∙ ap (store_delete id) s,
        remove-Keyed kv id k,
        ground (arith, done, get-remove kv id id, eq_iff id id),
      )
      | inr (refused, same) ↦ (kv, ap (λ x. x.store) same ∙ s, k, ground (arith, refused, h))
    ]

-- List answers with a configuration of the id exactly if the store has one; it may skip others.
abbrev pub Lists : Option (Map StreamSourceConfig) → String → List StreamSourceConfig → Type 0
Lists store id listed =
    (kv : Map StreamSourceConfig)
    → store ≡ some kv
    → any (has_id id) listed ≡ any (λ b. has_id id b.1) (bindings kv)

any-map :
    (p : StreamSourceConfig → Bool) (l : List (String × StreamSourceConfig))
    → any p (map (λ b. b.1) l) ≡ any (λ b. p b.1) l
any-map p [] = refl
any-map p (b ∷ l) = ap (λ x. p b.1 || x) (any-map p l)

-- A List that skips nothing.
abbrev pub all_stored : Option (Map StreamSourceConfig) → List StreamSourceConfig
all_stored none = []
all_stored (some kv) = map (λ b. b.1) (bindings kv)

pub all_stored-Lists :
    (store : Option (Map StreamSourceConfig)) (id : String) → Lists store id (all_stored store)
all_stored-Lists store id kv s =
    ap (λ o. any (has_id id) (all_stored o)) s ∙ any-map (has_id id) (bindings kv)

module _ (host : Host) (hash : Bytes → ℕ) (env : Startup) where
  -- The manager of a process that starts with the store, after its Restore.
  abbrev pub restarted :
      Result String (List StreamSourceConfig) → Option (Map StreamSourceConfig) → Manager
  restarted listed store = (restore host hash env listed (new_stream_manager store)).0

  restarted-registered :
      (store : Option (Map StreamSourceConfig)) (listed : List StreamSourceConfig) (id : String)
      (held : Bool)
      → is_blank id ≡ false
      → Stores store id held
      → Lists store id listed
      → registered (restarted (ok listed) store) id ≡ held
  restarted-registered store listed id held b (kv, s, k, h) l =
      restore-registered host hash env (new_stream_manager store) kv listed id s b
      ∙ ap (λ x. x || registered (new_stream_manager store) id) (l kv s ∙ stored_ids kv id k ∙ h)
      ∙ ap (λ x. held || is_some x) (get-empty id)
      ∙ or_false held

  restarted-failed :
      (store : Option (Map StreamSourceConfig)) (e id : String) (held : Bool)
      → Stores store id held
      → registered (restarted (err e) store) id ≡ false
  restarted-failed store e id held (kv, s, k, h) =
      ap (λ m. registered m id) (restore-failed host hash env (new_stream_manager store) kv e s)
      ∙ ap is_some (get-empty id)

  -- On a store that keeps each configuration under its id, take a Register of a configuration with
  -- an id, and then perhaps a Remove of it, and then a restart of the process. If List then answers
  -- and does not skip an entry of this id, the stream is registered after the Register exactly if
  -- that returned no error or the id was stored before, and after the Remove exactly if in addition
  -- that returned an error. If List fails, the stream is not registered.
  pub restart_follows :
      (adm : Admission) (delete_error : Option String) (cfg : StreamSourceConfig) (m : Manager)
      (kv : Map StreamSourceConfig) (listed listed_then : List StreamSourceConfig)
      (list_error : String)
      → m.store ≡ some kv
      → Keyed kv
      → is_blank cfg.id ≡ false
      → Lists (register host hash adm cfg m).0.store cfg.id listed
      → Lists
          (remove_stream delete_error cfg.id (register host hash adm cfg m).0).0.store
          cfg.id
          listed_then
      → let r = register host hash adm cfg m in
        let d = remove_stream delete_error cfg.id r.0 in
        (registered (restarted (ok listed) r.0.store) cfg.id
          ≡ (not (is_some r.1) || is_some (get kv cfg.id)))
        × (registered (restarted (ok listed_then) d.0.store) cfg.id
            ≡ (is_some d.1 && registered (restarted (ok listed) r.0.store) cfg.id))
        × (registered (restarted (err list_error) r.0.store) cfg.id ≡ false)
  restart_follows adm delete_error cfg m kv listed listed_then list_error s k b l l' =
      let r = register host hash adm cfg m in
      let d = remove_stream delete_error cfg.id r.0 in
      let first = register-Stores host hash adm cfg m kv s k in
      let held = not (is_some r.1) || is_some (get kv cfg.id) in
      let registered_first : registered (restarted (ok listed) r.0.store) cfg.id ≡ held =
        restarted-registered r.0.store listed cfg.id held b first l in
      (
        registered_first,
        restarted-registered d.0.store listed_then cfg.id (is_some d.1 && held) b
              (remove-Stores delete_error cfg.id r.0 held first) l'
            ∙ ap (λ x. is_some d.1 && x) (sym registered_first),
        restarted-failed r.0.store list_error cfg.id held first,
      )
