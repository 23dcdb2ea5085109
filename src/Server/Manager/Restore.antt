-- ===== src/Server/Manager/Restore.antt =====
-- internal/server/manager.go: Restore, and sourceFromConfig.
use Prim.Native.Nat.{Ordering}
use Prim.Native.String
use nephtys.Prelude.{ℕ, String, Bool, true, false, Option, none, some, List, [], ◌∷◌, if◌then◌else◌}
use nephtys.Prelude.Lists.{any}
use nephtys.Prelude.Text.{str_eq, is_blank}
use nephtys.Prelude.Map.{Map}
use nephtys.Prelude.Result.{Result, Check, ok, err}
use nephtys.Domain.Event.{Bytes}
use nephtys.Domain.Config.{StreamSourceConfig}
use nephtys.Host.{Host}
use nephtys.Server.Validate.{validate_stream_config}
use nephtys.Server.Validate.Fields.{StreamError}
use nephtys.Server.Manager.{
  ManagerError, load_failed, invalid_persisted, unsupported_kind, Admission, Manager, Reply, admit,
  admit_failed,
}

-- `configs[i].ID < configs[j].ID`
abbrev before : StreamSourceConfig → StreamSourceConfig → Bool
before a b = elim (String.compare a.id b.id) [ Ordering.lt ↦ true | _ ↦ false ]

unfoldable pub insert : StreamSourceConfig → List StreamSourceConfig → List StreamSourceConfig
insert x [] = x ∷ []
insert x (y ∷ ys) = let rest = insert x ys in if before y x then y ∷ rest else x ∷ y ∷ ys

-- `sort.Slice` by id.
unfoldable pub sort_by_id : List StreamSourceConfig → List StreamSourceConfig
unfolding insert
sort_by_id [] = []
sort_by_id (x ∷ xs) = insert x (sort_by_id xs)

-- The kinds that sourceFromConfig has a constructor for.
unfoldable pub source_from_config : StreamSourceConfig → Option ManagerError
source_from_config cfg =
    if any (str_eq cfg.kind) ("websocket" ∷ "rest_poller" ∷ "webhook" ∷ "grpc" ∷ "sse" ∷ [])
    then none
    else some (unsupported_kind cfg.kind)

-- What Restore and the clock are given: `say` is the text of an error, `redact` redactForAPI.
pub record Startup : Type 0 where
  pub admissions : String → Admission
  pub say : ManagerError → String
  pub redact : String → String
  pub now : ℕ

module _ (host : Host) (hash : Bytes → ℕ) (env : Startup) where
  abbrev fail : StreamSourceConfig → ManagerError → Manager → Manager
  fail cfg e m = admit_failed env.redact cfg (env.say e) env.now m

  unfoldable pub admitted : StreamSourceConfig → Reply → Manager
  unfolding admit_failed
  admitted cfg (m, none) = m
  admitted cfg (m, some e) = fail cfg e m

  unfoldable pub sourced : StreamSourceConfig → Option ManagerError → Manager → Manager
  unfolding admitted admit_failed
  sourced cfg none m = admitted cfg (admit host hash false (env.admissions cfg.id) cfg m)
  sourced cfg (some e) m = fail cfg e m

  unfoldable pub validated : StreamSourceConfig → Check StreamError → Manager → Manager
  unfolding sourced source_from_config admit_failed
  validated cfg (ok u) m = sourced cfg (source_from_config cfg) m
  validated cfg (err e) m = fail cfg (invalid_persisted e) m

  -- One turn of the loop over the stored configurations.
  unfoldable pub restore_one : StreamSourceConfig → Manager → Manager
  unfolding validated
  restore_one cfg m =
      if is_blank cfg.id then m else validated cfg (validate_stream_config host cfg) m

  unfoldable pub restore_all : List StreamSourceConfig → Manager → Manager
  unfolding restore_one
  restore_all [] m = m
  restore_all (cfg ∷ cfgs) m = restore_all cfgs (restore_one cfg m)

  unfoldable pub loaded : Result String (List StreamSourceConfig) → Manager → Reply
  unfolding restore_all sort_by_id
  loaded (ok configs) m = (restore_all (sort_by_id configs) m, none)
  loaded (err e) m = (m, some (load_failed e))

  unfoldable pub with_store :
      Result String (List StreamSourceConfig) → Option (Map StreamSourceConfig) → Manager → Reply
  unfolding loaded
  with_store listed none m = (m, none)
  with_store listed (some kv) m = loaded listed m

  -- `listed` is what List answers: it may fail, and skips the entries that it cannot read.
  unfoldable pub restore : Result String (List StreamSourceConfig) → Manager → Reply
  unfolding with_store
  restore listed m = with_store listed m.store m
