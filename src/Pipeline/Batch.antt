-- ===== src/Pipeline/Batch.antt =====
-- internal/pipeline/batch.go: the worker that collects events and hands them on as one array.
pub mod Laws
use Prim.Native.String.{◌++◌ as str_append}
use nephtys.Prelude.{
  ℕ, suc, ◌+◌, String, Bool, true, false, Option, none, some, List, [], ◌∷◌, ◌++◌, map, leb,
  if◌then◌else◌,
}
use nephtys.Prelude.Lists.{length}
use nephtys.Domain.Event.{Bytes, StreamEvent}

-- A call of the next handler. A batch carries the events that went into it; a batch that could not
-- be marshalled is dropped, and no call is made.
pub data Call : Type 0 where
  single : String → StreamEvent → Call
  batched : String → StreamEvent → List StreamEvent → Call
  marshal_failed : List StreamEvent → Call

-- The local variables of the worker's goroutine.
pub record Worker : Type 0 where
  pub batch : List StreamEvent
  pub last_topic : String

abbrev pub payloads : List StreamEvent → List Bytes
payloads = map (λ (e : StreamEvent). e.payload)

-- The event that stands for a batch with this first event; other fields are zero values.
unfoldable pub batched_event : StreamEvent → ℕ → Bytes → StreamEvent
batched_event head now array_payload = record {
  source = head.source;
  type = str_append head.type "_batch";
  timestamp = now;
  seq = 0;
  content_type = "";
  payload = array_payload;
  body_data = [];
}

-- `marshal` is `json.Marshal` of a list of raw messages, `now` the clock at the flush.
module _ (marshal : List Bytes → Option Bytes) (max_size : ℕ) where
  unfoldable pub deliver : ℕ → String → StreamEvent → List StreamEvent → Option Bytes → Call
  unfolding batched_event
  deliver now topic head batch none = marshal_failed batch
  deliver now topic head batch (some array_payload) =
      batched topic (batched_event head now array_payload) batch

  unfoldable pub flush_batch : ℕ → String → List StreamEvent → List Call
  unfolding deliver
  flush_batch now topic [] = []
  flush_batch now topic (head ∷ rest) =
      deliver now topic head (head ∷ rest) (marshal (payloads (head ∷ rest))) ∷ []

  -- The worker after a flush, and the calls that the flush made.
  unfoldable pub flush : ℕ → Worker → Worker × List Call
  unfolding flush_batch
  flush now w = (record w { batch = [] }, flush_batch now w.last_topic w.batch)

  -- One event received from the channel, in the main loop and in the drain alike.
  unfoldable pub collect : ℕ → String → StreamEvent → Worker → Worker × List Call
  unfolding flush
  collect now topic event w =
      let w' : Worker = record { batch = w.batch ++ event ∷ []; last_topic = topic } in
      if leb max_size (length w'.batch) then flush now w' else (w', [])
