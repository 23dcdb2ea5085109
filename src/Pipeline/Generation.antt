-- ===== src/Pipeline/Generation.antt =====
-- internal/pipeline/generation.go, with the publishers and the worker of batch.go: one generation
-- as a machine whose goroutines take their steps in any order. An action stands for one step of one
-- goroutine, and `act` is `none` where that step cannot be taken now.
pub mod Ordering
pub mod Invariant
pub mod Retire
pub mod Progress
mod Tests
use nephtys.Prelude.{
  ℕ, zero, suc, String, Bool, true, false, Option, none, some, List, [], ◌∷◌, ◌++◌, not, ◌&&◌, ◌||◌,
  ltb, if◌then◌else◌,
}
use nephtys.Prelude.Lists.{length, is_empty}
use nephtys.Domain.Event.{Bytes, StreamEvent, is_binary}
use nephtys.Pipeline.Batch.{Call, single, Worker, flush, collect}

-- A goroutine inside Publish: it holds the read lock. `selecting` says that it has found the
-- generation not cancelled, and waits for room in the channel or for the cancellation.
pub record Publisher : Type 0 where
  pub topic : String
  pub event : StreamEvent
  pub selecting : Bool

-- Where the worker's goroutine stands.
pub data WorkerPhase : Type 0 where
  receiving waiting_seal draining exited : WorkerPhase

-- How far Retire has come: not called; cancelled, and asking for the write lock; sealed, and waiting
-- for the worker; returned.
pub data RetirePhase : Type 0 where
  active locking waiting_worker returned : RetirePhase

pub record Generation : Type 0 where
  pub cancelled : Bool
  pub is_sealed : Bool
  pub inside : List Publisher
  pub channel : List (String × StreamEvent)
  pub phase : WorkerPhase
  pub worker : Worker
  pub retire : RetirePhase
  pub calls : List Call
  pub accepted : List StreamEvent  -- the events whose send on the channel has succeeded, in order

abbrev pub new_generation : Generation
new_generation = record {
  cancelled = false;
  is_sealed = false;
  inside = [];
  channel = [];
  phase = receiving;
  worker = record { batch = []; last_topic = "" };
  retire = active;
  calls = [];
  accepted = [];
}

pub data Action : Type 0 where
  arrive : String → StreamEvent → Action
  pass_check forward send : ℕ → Action
  receive tick : ℕ → Action
  see_done see_sealed : Action
  drain finish_drain : ℕ → Action
  cancel seal return : Action

-- The publisher with this number, and the others.
unfoldable pub pick : ℕ → List Publisher → Option (Publisher × List Publisher)
pick i [] = none
pick zero (p ∷ ps) = some (p, ps)
pick (suc i) (p ∷ ps) = elim (pick i ps) [ none ↦ none | some (q, qs) ↦ some (q, p ∷ qs) ]

abbrev pub is_receiving : WorkerPhase → Bool
is_receiving receiving = true
is_receiving _ = false

abbrev pub is_waiting_seal : WorkerPhase → Bool
is_waiting_seal waiting_seal = true
is_waiting_seal _ = false

abbrev pub is_draining : WorkerPhase → Bool
is_draining draining = true
is_draining _ = false

abbrev pub is_exited : WorkerPhase → Bool
is_exited exited = true
is_exited _ = false

abbrev pub is_active : RetirePhase → Bool
is_active active = true
is_active _ = false

abbrev pub is_locking : RetirePhase → Bool
is_locking locking = true
is_locking _ = false

abbrev pub is_waiting_worker : RetirePhase → Bool
is_waiting_worker waiting_worker = true
is_waiting_worker _ = false

abbrev pub when : Bool → Generation → Option Generation
when true g = some g
when false g = none

-- `g.inFlight.RLock()`: a writer that waits for the lock keeps new readers out.
pub enter : String → StreamEvent → Generation → Option Generation
enter topic event g = when (not (is_locking g.retire)) (record g {
  inside = g.inside ++ record { topic = topic; event = event; selecting = false } ∷ [];
})

-- `gen.Err()` is nil: the publisher goes on to the select.
pub past_check : Generation → Publisher → List Publisher → Option Generation
past_check g p others =
    when (not p.selecting && not (is_binary p.event) && not g.cancelled)
      (record g { inside = record p { selecting = true } ∷ others })

-- `return next(topic, event)`: of a binary event before the check, of any event once the
-- generation is cancelled.
pub forwarded : Generation → Publisher → List Publisher → Option Generation
forwarded g p others =
    when (g.cancelled || (not p.selecting && is_binary p.event))
      (record g { inside = others; calls = g.calls ++ single p.topic p.event ∷ [] })

-- `eventCh <- topicEvent{…}`: there is room in the channel.
pub sent : ℕ → Generation → Publisher → List Publisher → Option Generation
sent max_size g p others = when (p.selecting && ltb (length g.channel) max_size) (record g {
  inside = others;
  channel = g.channel ++ (p.topic, p.event) ∷ [];
  accepted = g.accepted ++ p.event ∷ [];
})

abbrev pub with_publisher :
    (Publisher → List Publisher → Option Generation)
    → Option (Publisher × List Publisher)
    → Option Generation
with_publisher step none = none
with_publisher step (some (p, others)) = step p others

abbrev pub and_then : Option Generation → (Generation → Option Generation) → Option Generation
and_then none k = none
and_then (some g) k = k g

module _ (marshal : List Bytes → Option Bytes) (max_size : ℕ) where
  -- `te := <-eventCh` in the main loop and in the drain.
  pub take_in : ℕ → Generation → List (String × StreamEvent) → Option Generation
  unfolding collect
  take_in now g [] = none
  take_in now g ((topic, event) ∷ rest) =
      let (w, made) = collect marshal max_size now topic event g.worker in
      some (record g { channel = rest; worker = w; calls = g.calls ++ made })

  pub flush_now : ℕ → Generation → Generation
  unfolding flush
  flush_now now g =
      let (w, made) = flush marshal max_size now g.worker in
      record g { worker = w; calls = g.calls ++ made }

  unfoldable pub act : Action → Generation → Option Generation
  unfolding enter past_check forwarded sent take_in flush_now pick
  act (arrive topic event) g = enter topic event g
  act (pass_check i) g = with_publisher (past_check g) (pick i g.inside)
  act (forward i) g = with_publisher (forwarded g) (pick i g.inside)
  act (send i) g = with_publisher (sent max_size g) (pick i g.inside)
  act (receive now) g = if is_receiving g.phase then take_in now g g.channel else none
  act (tick now) g = when (is_receiving g.phase) (flush_now now g)
  act see_done g = when (is_receiving g.phase && g.cancelled) (record g { phase = waiting_seal })
  act see_sealed g = when (is_waiting_seal g.phase && g.is_sealed) (record g { phase = draining })
  act (drain now) g = if is_draining g.phase then take_in now g g.channel else none
  act (finish_drain now) g =
      when (is_draining g.phase && is_empty g.channel) (record (flush_now now g) { phase = exited })
  act cancel g = when (is_active g.retire) (record g { cancelled = true; retire = locking })
  act seal g =
      when (is_locking g.retire && is_empty g.inside)
        (record g { is_sealed = true; retire = waiting_worker })
  act return g =
      when (is_waiting_worker g.retire && is_exited g.phase) (record g { retire = returned })

  -- Any interleaving: the actions that the scheduler chose, in order.
  unfoldable pub run : List Action → Generation → Option Generation
  unfolding act
  run [] g = some g
  run (a ∷ rest) g = and_then (act a g) (run rest)
