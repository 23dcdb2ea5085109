-- ===== src/Server/Manager/Remove.antt =====
-- internal/server/manager.go: Remove, and releaseClaimsLocked.
use nephtys.Prelude.{String, true, Option, none, some, if◌then◌else◌, is_some}
use nephtys.Prelude.Text.{str_eq}
use nephtys.Prelude.Map.{Map, get, remove, drop_if}
use nephtys.Server.Manager.{
  stream_not_found, delete_failed, cancelled, awaited, Manager, Reply, note, retire, store_delete,
  write_error,
}

unfoldable pub release_claims : String → Map String → Map String
release_claims id claims = drop_if (λ holder. str_eq holder id) claims

unfoldable pub note_if {ℓ} : {A : Type ℓ} → Option A → (A → Manager → Manager) → Manager → Manager
note_if none f m = m
note_if (some a) f m = f a m

-- Cancel, wait for the supervisor, retire the pipeline.
unfoldable pub shut_down : String → Manager → Manager
unfolding note_if note retire
shut_down id m = note_if (get m.generations id) retire (
    note_if (get m.dones id) (λ _. note (awaited id))
      (note_if (get m.cancels id) (λ _. note (cancelled id)) m))

unfoldable pub forget : String → Manager → Manager
unfolding release_claims
forget id m = record m {
  port_claims = release_claims id m.port_claims;
  generations = remove m.generations id;
  configs = remove m.configs id;
  cancels = remove m.cancels id;
  dones = remove m.dones id;
  runtimes = remove m.runtimes id;
  series = remove m.series id;
}

unfoldable pub removed : String → Option String → Manager → Reply
unfolding shut_down forget
removed id (some e) m = (m, some (delete_failed e))
removed id none m = (forget id (shut_down id (record m { store = store_delete id m.store })), none)

-- Remove, with what Delete answers.
unfoldable pub remove_stream : Option String → String → Manager → Reply
unfolding removed
remove_stream delete_error id m =
    if is_some (get m.runtimes id)
    then removed id (write_error true m.store delete_error) m
    else (m, some (stream_not_found id))
