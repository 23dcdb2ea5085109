-- ===== src/Server/Manager/Teardown.antt =====
-- internal/server/manager.go: the order in which Remove and StopAll take a stream down.
use nephtys.Prelude.{◌≡◌, String, Option, some, false, List, ◌∷◌, ◌++◌, is_some}
use nephtys.Prelude.Map.{get}
use nephtys.Server.Manager.{Effect, Manager, Live, cancelled, awaited, retired}
use nephtys.Server.Manager.Remove.{remove_stream}
use nephtys.Server.Manager.StopAll.{stop_all}
use nephtys.Server.Manager.Consistent.{Consistent}
use nephtys.Server.Manager.Removal.{teardown_ordered}
use nephtys.Server.Manager.Stopped.{Noted, stop_all_ordered}

-- On maps that agree, let a stream have a generation. A Remove of it, if it returns no error, cancels
-- the supervisor, then waits for it, then retires the generation, each once; and StopAll in its place
-- would retire the generation as well, after it has waited for the supervisor.
pub waits_before_retiring :
    (e : Option String) (id : String) (g : Live) (m : Manager)
    → Consistent m
    → get m.generations id ≡ some g
    → is_some (remove_stream e id m).1 ≡ false
    → ((remove_stream e id m).0.trace ≡ retired g.serial ∷ awaited id ∷ cancelled id ∷ m.trace)
      × ((later : List Effect) × (earlier : List Effect) × ((stop_all m).trace
            ≡ later ++ retired g.serial ∷ earlier)
          × Noted (awaited id) earlier)
waits_before_retiring e id g m c p r =
    (teardown_ordered e id m g c p r, stop_all_ordered id g m c p)
