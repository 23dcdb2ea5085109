-- ===== src/Server/Manager/StopAll.antt =====
-- internal/server/manager.go: StopAll.
use nephtys.Prelude.{String, List, [], ◌∷◌}
use nephtys.Prelude.Map.{empty, get, remove, bindings}
use nephtys.Server.Supervisor.{StreamRuntime}
use nephtys.Server.Manager.{Live, Manager, cancelled, awaited, note, retire}
use nephtys.Server.Manager.Remove.{note_if}

unfoldable pub cancel_all : List (String × Unit {0}) → Manager → Manager
unfolding note
cancel_all [] m = m
cancel_all ((id, u) ∷ rest) m = cancel_all rest (note (cancelled id) m)

-- `wg.Wait`: the supervisors of the streams that were cancelled.
unfoldable pub await_all : List (String × Unit {0}) → Manager → Manager
unfolding note note_if
await_all [] m = m
await_all ((id, u) ∷ rest) m = await_all rest (note_if (get m.dones id) (λ _. note (awaited id)) m)

unfoldable pub retire_all : List (String × Live) → Manager → Manager
unfolding retire
retire_all [] m = m
retire_all ((id, g) ∷ rest) m = retire_all rest (retire g m)

unfoldable pub drop_series : List (String × StreamRuntime) → Manager → Manager
drop_series [] m = m
drop_series ((id, rt) ∷ rest) m = drop_series rest (record m { series = remove m.series id })

unfoldable pub stop_all : Manager → Manager
unfolding cancel_all await_all retire_all drop_series
stop_all m =
    let ended = drop_series (bindings m.runtimes) (
      retire_all (bindings m.generations)
        (await_all (bindings m.cancels) (cancel_all (bindings m.cancels) m))) in
    record ended {
      generations = empty;
      configs = empty;
      cancels = empty;
      dones = empty;
      runtimes = empty;
      port_claims = empty;
    }
