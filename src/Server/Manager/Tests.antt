-- ===== src/Server/Manager/Tests.antt =====
-- The theorems on the stream manager at concrete inputs.
use nephtys.Prelude.{
  ℕ, ◌≡◌, refl, ◌⊎◌, ◌↔◌, String, true, false, none, some, List, [], ◌∷◌, ◌++◌, arith, is_some, ap,
  not, ◌||◌, ◌&&◌,
}
use nephtys.Prelude.Text.{is_blank}
use nephtys.Prelude.Map.{get, empty, put, find, get-empty}
use nephtys.Prelude.Result.{ok, err}
use nephtys.Domain.Config.{StreamSourceConfig}
use nephtys.Host.Number.{atoi, read_signed, read_number, read_digits, to_int, is_digit}
use nephtys.Host.Decimal.{itoa}
use nephtys.Pipeline.Builder.{build_from_config}
use nephtys.Server.Manager.{
  Effect, Manager, Admission, Live, new_stream_manager, register, cancelled, awaited, retired,
  admit, claimed, holder_of, with_generation, acquire, persisted, install, note,
}
use nephtys.Server.Manager.Remove.{remove_stream, removed}
use nephtys.Server.Manager.Ports.{canonical_port, port_or, connector_port, one_claim_per_port}
use nephtys.Server.Manager.Update.{finish_update}
use nephtys.Server.Manager.Restore.{Startup}
use nephtys.Server.Manager.Consistent.{Consistent}
use nephtys.Server.Manager.Reach.{Reachable, begun, stepped, registers, maps_agree, ports_exclusive}
use nephtys.Server.Manager.Admit.{Holds, Untouched, register_all_or_nothing}
use nephtys.Server.Manager.Swap.{Swapped, Kept, update_all_or_nothing}
use nephtys.Server.Manager.Removal.{Gone, remove_all_or_nothing}
use nephtys.Server.Manager.Restored.{registered}
use nephtys.Server.Manager.Restarted.{
  Keyed, all_stored, all_stored-Lists, restarted, restart_follows,
}
use nephtys.Server.Manager.StopAll.{stop_all}
use nephtys.Server.Manager.Stopped.{Noted}
use nephtys.Server.Manager.Teardown.{waits_before_retiring}
use nephtys.Fixtures.{host, hash, hook, no_pipeline}

one_claim_per_port_example :
    (canonical_port "09000" ≡ canonical_port "9000") ↔ (◌≡◌ {A = ℕ} 9000 9000)
unfolding atoi read_signed read_number read_digits to_int is_digit
one_claim_per_port_example =
    one_claim_per_port "09000" "9000" 9000 9000 refl refl (omega arith) (omega arith)

abbrev opens : Admission
opens = record { open_error = none; put_error = none }

abbrev taken : Admission
taken = record { open_error = some "address already in use"; put_error = none }

abbrev fresh : Manager
fresh = new_stream_manager (some empty)

abbrev simple : StreamSourceConfig
simple = record hook { pipeline = none }

unfoldable running : Manager
running = (register host hash opens simple fresh).0

running-Reachable : Reachable host hash running
unfolding running
running-Reachable = stepped fresh running (begun (some empty)) (registers opens simple)

maps_agree_example : Consistent running
maps_agree_example = maps_agree host hash running running-Reachable

admitted : is_some (register host hash opens simple fresh).1 ≡ false
unfolding register admit claimed holder_of with_generation acquire persisted get find empty
    build_from_config connector_port atoi itoa
admitted = refl

abbrev first : Live
first = record { serial = 0; chain = [] }

hook_runs : get running.generations "hook" ≡ some first
unfolding running register admit claimed holder_of with_generation acquire persisted get find empty
    build_from_config connector_port atoi itoa install note put
hook_runs = refl

hook_config : get running.configs "hook" ≡ some simple
unfolding running register admit claimed holder_of with_generation acquire persisted get find empty
    build_from_config connector_port atoi itoa install note put
hook_config = refl

hook_port : is_blank (connector_port simple) ≡ false
unfolding connector_port canonical_port port_or itoa atoi read_signed read_number read_digits to_int
    is_digit
hook_port = refl

ports_exclusive_example : ◌≡◌ {A = String} "hook" "hook"
ports_exclusive_example =
    ports_exclusive host hash running running-Reachable "hook" "hook" simple simple
      (ap is_some hook_runs) (ap is_some hook_runs) hook_config hook_config hook_port refl

abbrev second : Live
second = record { serial = 1; chain = [] }

update_all_or_nothing_example :
    let r = finish_update none "hook" (some no_pipeline) second running in
    ((is_some r.1 ≡ true) × Kept second running r.0)
    ⊎ ((is_some r.1 ≡ false)
        × (p : Live) × (get running.generations "hook" ≡ some p)
        × Swapped "hook" (some no_pipeline) p second running r.0)
update_all_or_nothing_example = update_all_or_nothing "hook" (some no_pipeline) second running none

hook_goes : is_some (remove_stream none "hook" running).1 ≡ false
unfolding running register admit claimed holder_of with_generation acquire persisted get find empty
    build_from_config connector_port atoi itoa install note put remove_stream removed
hook_goes = refl

abbrev startup : Startup
startup = record { admissions = λ id. opens; say = λ e. "failed"; redact = λ s. s; now = 5 }

empty-Keyed : Keyed empty
empty-Keyed key cfg e = ground (arith, e, get-empty {V = StreamSourceConfig} key)

restart_follows_example :
    let r = register host hash opens simple fresh in
    let d = remove_stream none "hook" r.0 in
    (registered (restarted host hash startup (ok (all_stored r.0.store)) r.0.store) "hook"
      ≡ (not (is_some r.1) || is_some (get {V = StreamSourceConfig} empty "hook")))
    × (registered (restarted host hash startup (ok (all_stored d.0.store)) d.0.store) "hook" ≡ (
        is_some d.1
        && registered (restarted host hash startup (ok (all_stored r.0.store)) r.0.store) "hook"))
    × (registered (restarted host hash startup (err "timeout") r.0.store) "hook" ≡ false)
restart_follows_example =
    let r = register host hash opens simple fresh in
    let d = remove_stream none "hook" r.0 in
    restart_follows host hash startup opens none simple fresh empty (all_stored r.0.store)
      (all_stored d.0.store) "timeout" refl empty-Keyed refl (all_stored-Lists r.0.store "hook")
      (all_stored-Lists d.0.store "hook")

register_all_or_nothing_example :
    let r = register host hash taken simple fresh in
    ((is_some r.1 ≡ false) × Holds true fresh simple r.0)
    ⊎ ((is_some r.1 ≡ true) × Untouched fresh r.0)
register_all_or_nothing_example = register_all_or_nothing host hash taken simple fresh

remove_all_or_nothing_example :
    let r = remove_stream (some "timeout") "hook" running in
    ((is_some r.1 ≡ false) × Gone "hook" running r.0) ⊎ ((is_some r.1 ≡ true) × (r.0 ≡ running))
remove_all_or_nothing_example = remove_all_or_nothing (some "timeout") "hook" running

waits_before_retiring_example :
    ((remove_stream none "hook" running).0.trace
      ≡ retired 0 ∷ awaited "hook" ∷ cancelled "hook" ∷ running.trace)
    × ((later : List Effect) × (earlier : List Effect) × ((stop_all running).trace
          ≡ later ++ retired 0 ∷ earlier)
        × Noted (awaited "hook") earlier)
waits_before_retiring_example =
    waits_before_retiring none "hook" first running (maps_agree host hash running running-Reachable)
      hook_runs hook_goes
