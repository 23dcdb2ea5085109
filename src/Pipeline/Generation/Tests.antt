-- ===== src/Pipeline/Generation/Tests.antt =====
-- One handover of a generation, step by step.
use nephtys.Prelude.{◌≤◌, ◌<◌, ◌≡◌, refl, true, Option, none, some, List, [], ◌∷◌, arith}
use nephtys.Prelude.Lists.{All, length}
use nephtys.Domain.Event.{Bytes, StreamEvent, is_binary}
use nephtys.Pipeline.Batch.{batched, batched_event, flush, collect, deliver, flush_batch}
use nephtys.Pipeline.Batch.Laws.{flushed, Fits}
use nephtys.Pipeline.Generation.{
  Generation, Action, arrive, pass_check, send, receive, see_done, cancel, seal, see_sealed, drain,
  finish_drain, return, new_generation, returned, run, act, enter, past_check, sent, take_in,
  flush_now, pick, exited, locking,
}
use nephtys.Pipeline.Generation.Retire.{retire_lossless, batches_fit}
use nephtys.Pipeline.Generation.Progress.{CanReturn, retire-CanReturn}
use nephtys.Fixtures.{trade}

abbrev as_array : List Bytes → Option Bytes
as_array items = some (b'[' ∷ b']' ∷ [])

-- Two events are published, the first is received, and Retire is called while the second is in the
-- channel.
abbrev begun : List Action
begun =
    arrive "events" (trade 1)
    ∷ pass_check 0
    ∷ send 0
    ∷ receive 5
    ∷ arrive "events" (trade 2)
    ∷ pass_check 0
    ∷ send 0
    ∷ cancel
    ∷ []

abbrev handover : List Action
handover =
    arrive "events" (trade 1)
    ∷ pass_check 0
    ∷ send 0
    ∷ receive 5
    ∷ arrive "events" (trade 2)
    ∷ pass_check 0
    ∷ send 0
    ∷ cancel
    ∷ see_done
    ∷ seal
    ∷ see_sealed
    ∷ drain 6
    ∷ finish_drain 7
    ∷ return
    ∷ []

abbrev or_new : Option Generation → Generation
or_new none = new_generation
or_new (some g) = g

abbrev one_waits : Generation
one_waits = record new_generation {
  cancelled = true;
  channel = ("events", trade 2) ∷ [];
  worker = record { batch = trade 1 ∷ []; last_topic = "events" };
  retire = locking;
  accepted = trade 1 ∷ trade 2 ∷ [];
}

one_waits-run : run as_array 2 begun new_generation ≡ some one_waits
unfolding run act enter past_check sent take_in flush_now pick collect is_binary
one_waits-run = refl

abbrev both_trades : StreamEvent
both_trades = record (trade 1) {
  type = "trade_batch";
  timestamp = 6;
  seq = 0;
  payload = b'[' ∷ b']' ∷ [];
}

abbrev handed_over : Generation
handed_over = record new_generation {
  cancelled = true;
  is_sealed = true;
  phase = exited;
  worker = record { batch = []; last_topic = "events" };
  retire = returned;
  calls = batched "events" both_trades (trade 1 ∷ trade 2 ∷ []) ∷ [];
  accepted = trade 1 ∷ trade 2 ∷ [];
}

handed_over-run : run as_array 2 handover new_generation ≡ some handed_over
unfolding run act enter past_check sent take_in flush_now pick collect is_binary flush_batch deliver
    batched_event flush
handed_over-run = refl

retire_lossless_example :
    (handed_over.channel ≡ [])
    × (handed_over.worker.batch ≡ [])
    × (flushed handed_over.calls ≡ trade 1 ∷ trade 2 ∷ [])
    × (handed_over.accepted ≡ trade 1 ∷ trade 2 ∷ [])
    × (flushed handed_over.calls ≡ trade 1 ∷ trade 2 ∷ [])
unfolding run
retire_lossless_example =
    retire_lossless as_array 2 (omega arith) handover [] handed_over handed_over handed_over-run
      refl refl

batches_fit_example :
    All (Fits 2) handed_over.calls
    × (length handed_over.channel ≤ 2)
    × (length handed_over.worker.batch < 2)
batches_fit_example = batches_fit as_array 2 (omega arith) handover handed_over handed_over-run

retire-CanReturn_example : CanReturn as_array 2 one_waits
retire-CanReturn_example =
    retire-CanReturn as_array 2 (omega arith) begun one_waits one_waits-run (λ e. cc)
