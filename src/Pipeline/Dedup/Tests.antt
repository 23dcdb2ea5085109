-- ===== src/Pipeline/Dedup/Tests.antt =====
-- A dedup cache of two entries at work.
use nephtys.Prelude.{ℕ, ◌-◌, ◌≤◌, ◌≡◌, refl, List, [], ◌∷◌, arith, ltb, ◌⊎◌, true}
use nephtys.Prelude.Lists.{length}
use nephtys.Pipeline.Dedup.{
  Lru, check, seen, hit, remember, make_room, mark_seen, evict, find, deref, delete, back, unlink,
  move_to_front,
}
use nephtys.Pipeline.Dedup.{empty as empty_cache}
use nephtys.Pipeline.Dedup.Coherent.{Coherent}
use nephtys.Pipeline.Dedup.Index.{view}
use nephtys.Pipeline.Dedup.Spec.{step}
use nephtys.Pipeline.Dedup.Refine.{Simulates, check-Simulates}
use nephtys.Pipeline.Dedup.Runs.{Arrival, run, HandedOn, cache_bounded, runs_sound, repeat_verdict}

abbrev arrivals : List Arrival
arrivals =
    record { hash = 7; at = 10 } ∷ record { hash = 8; at = 11 } ∷ record { hash = 7; at = 12 } ∷ []

unfoldable warm : Lru
unfolding run
warm = (run 5 2 empty_cache [] arrivals).0

check-Simulates_example : Simulates (check 5 2 9 13 warm) (step 5 2 9 13 (view warm.elements))
unfolding warm
check-Simulates_example = check-Simulates 5 2 9 13 warm (cache_bounded 5 2 arrivals (omega arith)).0

repeat_verdict_example :
    (check 5 2 9 20 (run 5 2 (check 5 2 9 13 warm).0 [] (record { hash = 9; at = 14 } ∷ [])).0).1
    ≡ ltb 5 (20 - 13)
unfolding warm run check seen hit remember make_room mark_seen evict find deref delete back unlink
    move_to_front
repeat_verdict_example =
    repeat_verdict 5 2 9 13 20 warm [] (record { hash = 9; at = 14 } ∷ [])
      (cache_bounded 5 2 arrivals (omega arith)).0 refl (omega arith) ((λ _. omega arith), tt)

runs_sound_example :
    let s = (run 5 2 empty_cache [] arrivals).0 in
    Coherent s
    × (length s.elements ≤ 2)
    × (length s.cache ≤ 2)
    × (((check 5 2 7 13 s).1 ≡ true)
        ⊎ ((t : ℕ) × HandedOn 7 t (run 5 2 empty_cache [] arrivals).1 × (13 - t ≤ 5)))
runs_sound_example = runs_sound 5 2 arrivals (omega arith) 7 13
