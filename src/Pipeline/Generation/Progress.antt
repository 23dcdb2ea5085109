-- ===== src/Pipeline/Generation/Progress.antt =====
-- internal/pipeline/generation.go: Retire comes to its end. From every state that a generation can
-- be in once Retire has been called, its goroutines have steps that lead to the return, whoever was
-- parked on a full channel.
use nephtys.Prelude.{
  ℕ, zero, ◌<◌, ◌≡◌, ◌≢◌, refl, String, true, Option, some, List, [], ◌∷◌, ◌++◌, arith,
}
use nephtys.Domain.Event.{Bytes, StreamEvent}
use nephtys.Pipeline.Batch.{single, collect}
use nephtys.Pipeline.Generation.{
  Publisher, Generation, new_generation, Action, forward, see_done, see_sealed, drain, finish_drain,
  seal, return, active, locking, waiting_worker, returned, WorkerPhase, receiving, waiting_seal,
  draining, exited, RetirePhase, act, run, forwarded, take_in, flush_now, pick,
}
use nephtys.Pipeline.Generation.Invariant.{Inv, new-Inv}
use nephtys.Pipeline.Generation.Retire.{run-Inv}

module _ (marshal : List Bytes → Option Bytes) (max_size : ℕ) where
  -- Some steps lead from here to a state in which Retire has returned.
  abbrev pub CanReturn : Generation → Type 0
  CanReturn g =
      (acts : List Action) × (h : Generation) × (run marshal max_size acts g ≡ some h)
      × (h.retire ≡ returned)

  first_step :
      (a : Action) (g x : Generation)
      → act marshal max_size a g ≡ some x
      → CanReturn x
      → CanReturn g
  unfolding run
  first_step a g x e (acts, h, r, done) = (a ∷ acts, h, ground arith, done)

  from_exited : (g : Generation) → g.retire ≡ waiting_worker → g.phase ≡ exited → CanReturn g
  unfolding run act
  from_exited g r p = (return ∷ [], record g { retire = returned }, ground arith, refl)

  from_draining :
      (ch : List (String × StreamEvent)) (g : Generation)
      → g.channel ≡ ch
      → g.retire ≡ waiting_worker
      → g.phase ≡ draining
      → CanReturn g
  unfolding act take_in flush_now
  from_draining [] g c r p =
      let x : Generation = record (flush_now marshal max_size 0 g) { phase = exited } in
      first_step (finish_drain 0) g x (ground arith) (from_exited x r refl)
  from_draining ((topic, e) ∷ rest) g c r p =
      let step = collect marshal max_size 0 topic e g.worker in
      let x : Generation = record g {
        channel = rest;
        worker = step.0;
        calls = g.calls ++ step.1;
      } in
      first_step (drain 0) g x (ground arith) (from_draining rest x refl r p)

  from_sealed :
      (phase : WorkerPhase) (g : Generation)
      → g.phase ≡ phase
      → g.retire ≡ waiting_worker
      → g.cancelled ≡ true
      → g.is_sealed ≡ true
      → CanReturn g
  unfolding act
  from_sealed exited g p r c s = from_exited g r p
  from_sealed draining g p r c s = from_draining g.channel g refl r p
  from_sealed waiting_seal g p r c s =
      let x : Generation = record g { phase = draining } in
      first_step see_sealed g x (ground arith) (from_draining g.channel x refl r refl)
  from_sealed receiving g p r c s =
      let x : Generation = record g { phase = waiting_seal } in
      let y : Generation = record g { phase = draining } in
      first_step see_done g x (ground arith)
        (first_step see_sealed x y (ground arith) (from_draining g.channel y refl r refl))

  from_locking :
      (ps : List Publisher) (g : Generation)
      → g.inside ≡ ps
      → g.retire ≡ locking
      → g.cancelled ≡ true
      → CanReturn g
  unfolding act pick forwarded
  from_locking [] g i r c =
      let x : Generation = record g { is_sealed = true; retire = waiting_worker } in
      first_step seal g x (ground arith) (from_sealed g.phase x refl refl c refl)
  from_locking (p ∷ ps) g i r c =
      let x : Generation = record g {
        inside = ps;
        calls = g.calls ++ single p.topic p.event ∷ [];
      } in
      first_step (forward zero) g x (ground arith) (from_locking ps x refl r c)

  from_begun :
      (phase : RetirePhase) (g : Generation)
      → g.retire ≡ phase
      → phase ≢ active
      → Inv max_size g
      → CanReturn g
  unfolding run
  from_begun active g r n v = absurd (n refl)
  from_begun locking g r n v = from_locking g.inside g refl r (ground (arith, v))
  from_begun waiting_worker g r n v =
      from_sealed g.phase g refl r (ground (arith, v)) (ground (arith, v))
  from_begun returned g r n v = ([], g, refl, r)

  -- From every state that an interleaving reaches after Retire has been called, some steps of the
  -- goroutines lead to a state in which it has returned.
  pub retire-CanReturn :
      0 < max_size
      → (acts : List Action) (g : Generation) → run marshal max_size acts new_generation ≡ some g
      → g.retire ≢ active
      → CanReturn g
  retire-CanReturn p acts g e begun =
      from_begun g.retire g refl begun
        (run-Inv marshal max_size acts new_generation (new-Inv max_size p) e)
